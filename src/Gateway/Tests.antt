-- ===== src/Gateway/Tests.antt =====
-- Runs of pkg/gatewayclient/gatewayclient.go with small libraries.
use re_casa_os_user_service.Prelude.{
  refl, Bytes, false, All, true, codes, [], ◌≡◌, some, length, bytes_eq, contains_byte,
}
use re_casa_os_user_service.Gateway.{
  Client, create_route, Libraries, RuntimeFile, new_client, change_port, get_port, expect_status,
  exchange, sent, request_of, address, read_bounded_file, service_token,
}
use re_casa_os_user_service.Gateway.Local.{requests_stay_local, GoesToGateway}
use re_casa_os_user_service.Files.{Info, done}

abbrev gateway_url : Bytes
gateway_url = codes "http://127.0.0.1:8080/"

abbrev file_info : Info
file_info = record {
  file_id = 5;
  is_symlink = false;
  is_regular = true;
  is_dir = false;
  perm = 384;
  owner = some 0;
  links = 1;
}

abbrev runtime_file : Bytes → RuntimeFile
runtime_file s = record {
  info = done file_info;
  size = length s;
  open_file = done tt;
  opened = done file_info;
  contents = done s;
}

abbrev client : Client
client = record {
  is_blank = false;
  address_file = runtime_file gateway_url;
  token_file = runtime_file (codes "token");
}

-- Libraries that know this one address.
abbrev libraries : Libraries
libraries = record {
  trim_space = λ s. s;
  parse_url = λ s. done (record {
    scheme = codes "http";
    has_user = false;
    path = codes "/";
    raw_query = [];
    fragment = [];
    host = codes "127.0.0.1:8080";
  });
  split_host_port = λ s. done (codes "127.0.0.1", codes "8080");
  is_loopback = λ s. bytes_eq s (codes "127.0.0.1");
  accepts_request = λ m u. done tt;
  routes_path = codes "/v1/gateway/routes";
  port_path = codes "/v1/gateway/port";
  send = λ r. done (record { status = 201; body = done [] });
}

creates_route : (create_route libraries client (done (codes "{}"))).0 ≡ done tt
unfolding create_route expect_status exchange sent request_of address read_bounded_file
    contains_byte bytes_eq service_token
creates_route = refl

requests_stay_local_example :
    All (GoesToGateway libraries client) (new_client libraries client).1
    × All (GoesToGateway libraries client) (create_route libraries client (done (codes "{}"))).1
    × All (GoesToGateway libraries client) (change_port libraries client (done (codes "{}"))).1
    × All (GoesToGateway libraries client) (get_port libraries client).1
requests_stay_local_example = requests_stay_local libraries client (done (codes "{}"))
