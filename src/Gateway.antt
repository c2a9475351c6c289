-- ===== src/Gateway.antt =====
-- pkg/gatewayclient/gatewayclient.go: the client of the local gateway, whose calls carry the token
-- that the gateway writes on every start.
pub mod Local
mod Tests
use re_casa_os_user_service.Prelude.{
  ℕ, if◌then◌else◌, Bytes, List, Bool, ◌∷◌, bytes_eq, Option, [], codes, ◌==◌, none, ◌&&◌, some,
  not, is_empty, ◌++◌, ◌||◌, leb, length, take, suc, contains_byte,
}
use re_casa_os_user_service.Files.{
  Answer, ◌>>=◌, ◌>>◌, failed, done, Info, or_as, reject, invalid_address, invalid_credential,
  failure, same_file,
}
use re_casa_os_user_service.Bootstrap.FileSeal.{trim_last}

-- What the system answers about one runtime file: Lstat with the size, Open, Stat, and what reading
-- it gives; the name may be linked to another file meanwhile.
pub record RuntimeFile : Type 0 where
  pub info : Answer Info
  pub size : ℕ
  pub open_file : Answer (Unit {0})
  pub opened : Answer Info
  pub contents : Answer Bytes

-- url.Parse: the parts that the client looks at.
pub record Url : Type 0 where
  pub scheme : Bytes
  pub has_user : Bool
  pub path : Bytes
  pub raw_query : Bytes
  pub fragment : Bytes
  pub host : Bytes

pub record Request : Type 0 where
  pub method : Bytes
  pub url : Bytes
  pub token : Option Bytes
  pub body : Option Bytes

pub record Response : Type 0 where
  pub status : ℕ
  pub body : Answer Bytes

-- The libraries: strings.TrimSpace, url.Parse, net.SplitHostPort, net.ParseIP with IsLoopback (false if
-- there is no IP), http.NewRequest, which may refuse a method and URL, and http.Client, which follows
-- no redirect; and the two paths of the gateway.
pub record Libraries : Type 0 where
  pub trim_space : Bytes → Bytes
  pub parse_url : Bytes → Answer Url
  pub split_host_port : Bytes → Answer (Bytes × Bytes)
  pub is_loopback : Bytes → Bool
  pub accepts_request : Bytes → Bytes → Answer (Unit {0})
  pub routes_path : Bytes
  pub port_path : Bytes
  pub send : Request → Answer Response

-- The two files as a call finds them, and whether the runtime path is blank.
pub record Client : Type 0 where
  pub is_blank : Bool
  pub address_file : RuntimeFile
  pub token_file : RuntimeFile

abbrev pub slash : ℕ
slash = 47

abbrev pub max_response_bytes : ℕ
max_response_bytes = 65536

abbrev pub max_credential_file_bytes : ℕ
max_credential_file_bytes = 1024

-- strings.TrimPrefix of one byte.
unfoldable pub trim_first : ℕ → Bytes → Bytes
trim_first c [] = []
trim_first c (b ∷ s) = if b == c then s else b ∷ s

-- The calls, with the requests that they send.
abbrev pub Exchange : Type 0 → Type 0
Exchange A = Answer A × List Request

module _ (lib : Libraries) where
  unfoldable pub read_bounded_file : RuntimeFile → ℕ → Answer Bytes
  read_bounded_file f limit = do
    i ← f.info
    reject (not i.is_regular) invalid_address
    reject (not (leb f.size limit)) invalid_address
    f.open_file
    opened ← f.opened
    reject (not (same_file i opened)) invalid_address
    contents ← f.contents
    reject (not (leb (length (take (suc limit) contents)) limit)) invalid_address
    reject (contains_byte 0 (lib.trim_space (take (suc limit) contents))) invalid_address
    done (lib.trim_space (take (suc limit) contents))

  abbrev pub is_plain_url : Url → Bool
  is_plain_url u =
      bytes_eq u.scheme (codes "http")
      && not u.has_user
      && (is_empty u.path || bytes_eq u.path (slash ∷ []))
      && is_empty u.raw_query
      && is_empty u.fragment

  unfoldable pub address : Client → Answer Bytes
  address c = do
    value ← read_bounded_file c.address_file max_credential_file_bytes
    parsed ← or_as invalid_address (lib.parse_url value)
    reject (not (is_plain_url parsed)) invalid_address
    parts ← or_as invalid_address (lib.split_host_port parsed.host)
    reject (is_empty parts.1) invalid_address
    reject (not (lib.is_loopback parts.0)) invalid_address
    done value

  unfoldable pub service_token : Client → Answer Bytes
  service_token c = do
    value ← read_bounded_file c.token_file max_credential_file_bytes
    reject (is_empty value) invalid_credential
    done value

  unfoldable pub sent : Answer Request → Exchange Response
  sent (done r) = (lib.send r, r ∷ [])
  sent (failed e) = (failed e, [])

  -- The request of `do`.
  unfoldable pub request_of : Client → Bytes → Bytes → Option Bytes → Answer Request
  request_of c method path body = do
    a ← address c
    t ← service_token c
    lib.accepts_request method (trim_last slash a ++ (slash ∷ trim_first slash path))
    done (record {
      method = method;
      url = trim_last slash a ++ (slash ∷ trim_first slash path);
      token = some t;
      body = body;
    })

  unfoldable pub exchange : Client → Bytes → Bytes → Option Bytes → Exchange Response
  exchange c method path body = sent (request_of c method path body)

  -- The response is read and its status compared.
  unfoldable pub expect_status : ℕ → Exchange Response → Exchange (Unit {0})
  expect_status status (failed e, rs) = (failed e, rs)
  expect_status status (done r, rs) = (reject (not (r.status == status)) failure, rs)

  -- `body` is the encoded argument, or the error of a nil one or of the encoder.
  unfoldable pub create_route : Client → Answer Bytes → Exchange (Unit {0})
  create_route c (failed e) = (failed e, [])
  create_route c (done body) =
      expect_status 201 (exchange c (codes "POST") lib.routes_path (some body))

  unfoldable pub change_port : Client → Answer Bytes → Exchange (Unit {0})
  change_port c (failed e) = (failed e, [])
  change_port c (done body) = expect_status 200 (exchange c (codes "PUT") lib.port_path (some body))

  unfoldable pub port_body : Exchange Response → Exchange Bytes
  port_body (failed e, rs) = (failed e, rs)
  port_body (done r, rs) = (
    (do
      body ← r.body
      reject (not (leb (length (take (suc max_response_bytes) body)) max_response_bytes)) failure
      reject (not (r.status == 200)) failure
      done (take (suc max_response_bytes) body)),
    rs,
  )

  unfoldable pub get_port : Client → Exchange Bytes
  get_port c = port_body (exchange c (codes "GET") lib.port_path none)

  unfoldable pub ping_request : Bytes → Answer Request
  ping_request a = do
    lib.accepts_request (codes "GET") (trim_last slash a ++ codes "/ping")
    done (record {
      method = codes "GET";
      url = trim_last slash a ++ codes "/ping";
      token = none;
      body = none;
    })

  unfoldable pub ping : Bytes → Exchange (Unit {0})
  ping a = expect_status 200 (sent (ping_request a))

  unfoldable pub ping_found : Answer Bytes → Exchange (Unit {0})
  ping_found (failed e) = (failed e, [])
  ping_found (done a) = ping a

  -- New, after the wait for the address file: `c` is what it finds then.
  unfoldable pub new_client : Client → Exchange (Unit {0})
  new_client c = if c.is_blank then (failed invalid_address, []) else ping_found (address c)
