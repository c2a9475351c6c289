-- ===== src/Gateway/Local.antt =====
-- pkg/gatewayclient/gatewayclient.go: where the service token goes.
use re_casa_os_user_service.Prelude.{
  ℕ, refl, Bytes, Bool, ◌≡◌, All, Option, some, if◌then◌else◌, none, subst, sym, arith, not, [],
  true, ◌++◌, codes, ap, ◌∙◌, ◌∷◌, is_empty, false,
}
use re_casa_os_user_service.Gateway.{
  Libraries, Client, Request, address, exchange, sent, request_of, new_client, create_route,
  change_port, port_body, ping_found, ping_request, expect_status, read_bounded_file, ping,
  Exchange, get_port, Response, max_credential_file_bytes, Url, slash, is_plain_url, trim_first,
  service_token,
}
use re_casa_os_user_service.Files.{
  Answer, FileError, done, reject, failed, bind_done, then_done, invalid_address, or_as,
  done-injective, reject_done,
}
use re_casa_os_user_service.Bootstrap.FileSeal.{trim_last}

some_same : {a b : Bytes} → ◌≡◌ {A = Option Bytes} (some a) (some b) → a ≡ b
some_same q = ground (arith, q)

none-some : {a : Bytes} → ¬ (◌≡◌ {A = Option Bytes} none (some a))
none-some q = ground (arith, q)

module _ (lib : Libraries) where
  -- The address in the file: a plain http URL of a loopback IP with a port.
  pub record IsLocalAddress (c : Client) (a : Bytes) : Type 0 where
    pub from_file : read_bounded_file lib c.address_file max_credential_file_bytes ≡ done a
    pub url : Url
    pub parsed : or_as invalid_address (lib.parse_url a) ≡ done url
    pub plain : is_plain_url lib url ≡ true
    pub host : Bytes
    pub port : Bytes
    pub split : or_as invalid_address (lib.split_host_port url.host) ≡ done (host, port)
    pub has_port : is_empty port ≡ false
    pub loopback : lib.is_loopback host ≡ true

  not_rejected : (b : Bool) (e : FileError) → reject (not b) e ≡ done tt → b ≡ true
  not_rejected b e z = ground (arith, z)

  address_sound : (c : Client) (a : Bytes) → address lib c ≡ done a → IsLocalAddress c a
  unfolding address
  address_sound c a z =
      let (v, read, r1) = bind_done _ _ a z in
      let (u, parsed, r2) = bind_done _ _ a r1 in
      let (plain, r3) = then_done _ _ a r2 in
      let (parts, split, r4) = bind_done _ _ a r3 in
      let (port, r5) = then_done _ _ a r4 in
      let (loop, last) = then_done _ _ a r5 in
      let same = done-injective last in
      record {
        from_file = read ∙ ap done same;
        url = u;
        parsed = subst (λ x. or_as invalid_address (lib.parse_url x) ≡ done u) same parsed;
        plain = not_rejected _ invalid_address plain;
        host = parts.0;
        port = parts.1;
        split = split;
        has_port = reject_done _ invalid_address port;
        loopback = not_rejected _ invalid_address loop;
      }

  -- A request below a local address, and the token is the one of the gateway's file.
  pub record GoesToGateway (c : Client) (r : Request) : Type 0 where
    pub base : Bytes
    pub local : IsLocalAddress c base
    pub rest : Bytes
    pub below : r.url ≡ trim_last slash base ++ (slash ∷ rest)
    pub service_token_of : (t : Bytes) → r.token ≡ some t → service_token lib c ≡ done t

  request_of_sound :
      (c : Client) (method path : Bytes) (body : Option Bytes) (r : Request)
      → request_of lib c method path body ≡ done r
      → GoesToGateway c r
  unfolding request_of
  request_of_sound c method path body r z =
      let (a, at, r1) = bind_done _ _ r z in
      let (t, token, r2) = bind_done _ _ r r1 in
      let (ok_request, last) = then_done _ _ r r2 in
      let same = done-injective last in
      record {
        base = a;
        local = address_sound c a at;
        rest = trim_first slash path;
        below = sym (ap Request.url same);
        service_token_of = λ x q. token ∙ ap done (some_same (ap Request.token same ∙ q));
      }

  ping_request_sound :
      (c : Client) (a : Bytes) (r : Request)
      → address lib c ≡ done a
      → ping_request lib a ≡ done r
      → GoesToGateway c r
  unfolding ping_request
  ping_request_sound c a r at z =
      let (ok_request, last) = then_done _ _ r z in
      let same = done-injective last in
      record {
        base = a;
        local = address_sound c a at;
        rest = codes "ping";
        below = sym (ap Request.url same);
        service_token_of = λ x q. absurd (none-some (ap Request.token same ∙ q));
      }

  -- What is sent of a request that may have failed to be made.
  sent-GoesToGateway :
      (c : Client) (q : Answer Request)
      → ((r : Request) → q ≡ done r → GoesToGateway c r)
      → All (GoesToGateway c) (sent lib q).1
  unfolding sent
  sent-GoesToGateway c (done r) k = (k r refl, tt)
  sent-GoesToGateway c (failed e) k = tt

  expect_status-requests : (n : ℕ) (x : Exchange Response) → (expect_status lib n x).1 ≡ x.1
  unfolding expect_status
  expect_status-requests n (done r, rs) = refl
  expect_status-requests n (failed e, rs) = refl

  port_body-requests : (x : Exchange Response) → (port_body lib x).1 ≡ x.1
  unfolding port_body
  port_body-requests (done r, rs) = refl
  port_body-requests (failed e, rs) = refl

  exchange-GoesToGateway :
      (c : Client) (method path : Bytes) (body : Option Bytes)
      → All (GoesToGateway c) (exchange lib c method path body).1
  unfolding exchange
  exchange-GoesToGateway c method path body =
      sent-GoesToGateway c (request_of lib c method path body) (request_of_sound c method path body)

  ping_found-GoesToGateway :
      (c : Client) (a : Answer Bytes)
      → address lib c ≡ a
      → All (GoesToGateway c) (ping_found lib a).1
  unfolding ping_found ping
  ping_found-GoesToGateway c (failed e) q = tt
  ping_found-GoesToGateway c (done a) q =
      subst (All (GoesToGateway c))
        (sym (expect_status-requests 200 (sent lib (ping_request lib a))))
        (sent-GoesToGateway c (ping_request lib a) (λ r. ping_request_sound c a r q))

  if_blank :
      (c : Client) (b : Bool)
      → All
          (GoesToGateway c)
          (if b then (failed invalid_address, []) else ping_found lib (address lib c)).1
  if_blank c true = tt
  if_blank c false = ping_found-GoesToGateway c (address lib c) refl

  create_route-GoesToGateway :
      (c : Client) (body : Answer Bytes) → All (GoesToGateway c) (create_route lib c body).1
  unfolding create_route
  create_route-GoesToGateway c (failed e) = tt
  create_route-GoesToGateway c (done body) =
      subst (All (GoesToGateway c)) (sym (expect_status-requests 201 _))
        (exchange-GoesToGateway c (codes "POST") lib.routes_path (some body))

  change_port-GoesToGateway :
      (c : Client) (body : Answer Bytes) → All (GoesToGateway c) (change_port lib c body).1
  unfolding change_port
  change_port-GoesToGateway c (failed e) = tt
  change_port-GoesToGateway c (done body) =
      subst (All (GoesToGateway c)) (sym (expect_status-requests 200 _))
        (exchange-GoesToGateway c (codes "PUT") lib.port_path (some body))

-- Every request of the client, of each of its calls, goes to the plain http address of a loopback IP
-- with a port that the gateway's file has, and a token it carries is the one of the token file.
pub requests_stay_local :
    (lib : Libraries) (c : Client) (body : Answer Bytes)
    → All (GoesToGateway lib c) (new_client lib c).1
      × All (GoesToGateway lib c) (create_route lib c body).1
      × All (GoesToGateway lib c) (change_port lib c body).1
      × All (GoesToGateway lib c) (get_port lib c).1
unfolding new_client get_port
requests_stay_local lib c body = (
  if_blank lib c c.is_blank,
  create_route-GoesToGateway lib c body,
  change_port-GoesToGateway lib c body,
  subst (All (GoesToGateway lib c)) (sym (port_body-requests lib _))
      (exchange-GoesToGateway lib c (codes "GET") lib.port_path none),
)
