-- ===== src/Samples.antt =====
-- Test data that the tests of several components share.
use re_casa_os_user_service.Prelude.{
  refl, codes, false, true, none, [], ◌∷◌, some, Bytes, Option, ◌++◌,
}
use re_casa_os_user_service.Model.{Db, User, RefreshSession, pristine}
use re_casa_os_user_service.Store.{World, ok}
use re_casa_os_user_service.Bootstrap.State.Closed.{SealLaws}
use re_casa_os_user_service.Bootstrap.State.{Seal}
use re_casa_os_user_service.Password.{Kdf}
use re_casa_os_user_service.Tokens.{PublicKey, Crypto, SessionClaims, es256}
use re_casa_os_user_service.Prelude.Int.{pos}

abbrev pub admin : User
admin = record {
  id = 1;
  username = codes "root";
  password = codes "hash";
  role = codes "admin";
  email = [];
  nickname = [];
  avatar = [];
  description = [];
  token_version = 4;
  created_at = 1;
  updated_at = 1;
}

abbrev pub guest : User
guest = record admin { id = 2; username = codes "guest"; role = codes "user" }

-- A live refresh session of the administrator.
abbrev pub live : RefreshSession
live = record {
  id = codes "s1";
  user_id = 1;
  token_sha256 = codes "t1";
  issued_at = 10;
  expires_at = 900;
  used_at = none;
  replaced_by = [];
  revoked_at = none;
  revoke_reason = [];
}

abbrev pub empty_db : Db
empty_db = record {
  users = [];
  next_user_id = 1;
  bootstrap = none;
  sessions = [];
  attempts = [];
  revoked = [];
  events = [];
  next_event_id = 1;
}

abbrev pub two_users : Db
two_users = record empty_db { users = admin ∷ guest ∷ []; next_user_id = 3; sessions = live ∷ [] }

-- A world in which no statement fails.
abbrev pub world_of : Db → World
world_of d = record {
  db = d;
  clock = 100;
  ready = true;
  fails = λ n. false;
  calls = 0;
  draws = 0;
  seal = none;
  state = record { installation_id = []; status = pristine };
}

-- A seal that is a field of the world.
abbrev pub toy_seal : Seal
toy_seal = record {
  load = λ w. (ok w.seal, w);
  create = λ i w. (ok tt, record w { seal = some i });
}

pub toy_laws : SealLaws toy_seal
toy_laws = record { load_outside = λ w. refl; create_outside = λ i w. refl }

-- A key derivation and an encoding that need no library: the key is the plaintext.
abbrev pub toy_kdf : Kdf
toy_kdf = record {
  id_key = λ p s t m l n. p;
  encode = λ s. s;
  decode = λ s. some s;
  salts = λ n. some (codes "0123456789abcdef");
}

abbrev pub verifier_of : Bytes → Bytes
verifier_of p = codes "$argon2id$v=19$m=65536,t=3,p=2$0123456789abcdef$" ++ p

abbrev pub secret : Bytes
secret = codes "correct-horse-battery-stable-101"

abbrev pub secret' : Bytes
secret' = codes "another-horse-battery-stable-102"

abbrev pub member : User
member = record guest { password = verifier_of secret }

abbrev pub with_member : World
with_member = world_of (record two_users { users = admin ∷ member ∷ [] })

abbrev pub toy_key : PublicKey
toy_key = record { is_p256 = true; has_point = true; on_curve = true; fingerprint = 7 }

abbrev pub root_claims : SessionClaims
root_claims = record {
  issuer = codes "casaos";
  subject = codes "root";
  id = codes "j1";
  issued_at = some 1;
  not_before = some 1;
  expires_at = some 900;
  username = codes "root";
  user_id = 1;
  token_version = pos 4;
}

-- A toy library: it gives the same claims for any token, if the key function has a key.
abbrev pub parse_any : Option PublicKey → Option SessionClaims
parse_any none = none
parse_any (some k) = some root_claims

abbrev pub toy_crypto : Crypto
toy_crypto = record {
  jwt = record {
    sign = λ k c. some (codes "a.b.c");
    parse = λ f at token. parse_any (f es256);
    numeric_date = λ n. n;
  };
  private_key = some toy_key;
  public_key = some toy_key;
  random_id = λ n. some (codes "j1");
  sha256_hex = λ s. s;
}
