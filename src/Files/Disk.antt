-- ===== src/Files/Disk.antt =====
-- Directories of files, and the calls on them that the operating system and the os package provide:
-- for pkg/userconfig/store.go and pkg/userbootstrap/file_seal.go.
-- What the code relies on is here: a call that fails changes nothing, except that a failed write
-- may leave part of its bytes; O_EXCL creates a file or fails; a rename or a removal happens at once.
-- Which calls fail is a parameter.
pub mod Seen
pub mod Leaves
pub mod Ensures
pub mod Succeeds
use re_casa_os_user_service.Prelude.{
  ℕ, suc, Bool, true, false, Bytes, List, [], ◌∷◌, ◌++◌, Option, none, some, bytes_eq,
  if◌then◌else◌, find_where, delete_where, take,
}
use re_casa_os_user_service.Files.{Info, Answer, done, failed, FileError, failure, missing, exists}

pub record Entry : Type 0 where
  pub name : Bytes
  pub info : Info
  pub contents : Bytes

-- `dirs` lists what each directory holds, call number `calls` fails exactly if `fails calls`,
-- a failed write leaves `torn` of its bytes, opening a symbolic link opens its `link_target`, and
-- `nonce` is what each read of the random source gives, hex encoded. `euid`, which the actions take,
-- is the user that the service runs as.
pub record Disk : Type 0 where
  pub dirs : Bytes → List Entry
  pub next_id : ℕ
  pub fails : ℕ → Bool
  pub calls : ℕ
  pub torn : Bytes → Bytes
  pub link_target : Entry → Answer Entry
  pub nonce : ℕ → Answer Bytes
  pub draws : ℕ

abbrev pub Action : Type 0 → Type 0
Action A = Disk → Answer A × Disk

unfoldable pub pure : {A : Type 0} → A → Action A
pure a d = (done a, d)

unfoldable pub fail : {A : Type 0} → FileError → Action A
fail e d = (failed e, d)

unfoldable pub lift : {A : Type 0} → Answer A → Action A
lift r d = (r, d)

unfoldable pub attempt : {A : Type 0} → Action A → Action (Answer A)
attempt m d = (done (m d).0, (m d).1)

-- `_ = f()`: the error is dropped.
unfoldable pub ignore : {A : Type 0} → Action A → Action (Unit {0})
ignore m d = (done tt, (m d).1)

abbrev pub continue : {A B : Type 0} → (A → Action B) → Answer A → Action B
continue f (done a) d = f a d
continue f (failed e) d = (failed e, d)

infixl 5 ◌>>=◌ ◌>>◌
unfoldable pub ◌>>=◌ : {A B : Type 0} → Action A → (A → Action B) → Action B
unfolding pure fail lift attempt ignore
◌>>=◌ m f d = continue f (m d).0 (m d).1

abbrev pub ◌>>◌ : {B : Type 0} → Action (Unit {0}) → Action B → Action B
m >> k = m >>= λ _. k

abbrev pub called : Disk → Disk
called d = record d { calls = suc d.calls }

-- A call that may fail.
unfoldable pub call : {A : Type 0} → Action A → Action A
call f d = if d.fails d.calls then (failed failure, called d) else f (called d)

-- The entry of that name.
unfoldable pub lookup : Bytes → List Entry → Option Entry
lookup n l = find_where (λ e. bytes_eq e.name n) l

unfoldable pub without : Bytes → List Entry → List Entry
without n l = delete_where (λ e. bytes_eq e.name n) l

unfoldable pub placed : Entry → List Entry → List Entry
placed e l = e ∷ without e.name l

-- The disk with `l` as the contents of the directory `h`.
abbrev pub set_dir : Bytes → List Entry → Disk → Disk
set_dir h l d = record d { dirs = λ n. if bytes_eq n h then l else d.dirs n }

abbrev pub new_file : ℕ → Disk → Bytes → Entry
new_file euid d n = record {
  name = n;
  contents = [];
  info = record {
    file_id = d.next_id;
    is_symlink = false;
    is_regular = true;
    is_dir = false;
    perm = 384;
    owner = some euid;
    links = 1;
  };
}

unfoldable pub lstat : Bytes → Bytes → Action Entry
lstat h n =
    call (λ d. elim (lookup n (d.dirs h)) [ none ↦ (failed missing, d) | some e ↦ (done e, d) ])

-- Open and Stat: the file that is opened.
unfoldable pub open_file : Bytes → Bytes → Action Entry
open_file h n = call (λ d. elim (lookup n (d.dirs h)) [
  | none ↦ (failed missing, d)
  | some e ↦ (if e.info.is_symlink then d.link_target e else done e, d)
])

-- Open with O_NOFOLLOW, and Stat.
unfoldable pub open_nofollow : Bytes → Bytes → Action Entry
open_nofollow h n = call (λ d. elim (lookup n (d.dirs h)) [
  | none ↦ (failed missing, d)
  | some e ↦ (if e.info.is_symlink then failed failure else done e, d)
])

-- O_WRONLY|O_CREATE|O_EXCL with mode 0600, where the name was found or not.
unfoldable pub created : ℕ → Bytes → Bytes → Option Entry → Action Entry
created euid h n (some e) d = (failed exists, d)
created euid h n none d =
    let e = new_file euid d n in
    (done e, record (set_dir h (placed e (d.dirs h)) d) { next_id = suc d.next_id })

unfoldable pub create_excl : ℕ → Bytes → Bytes → Action Entry
create_excl euid h n = call (λ d. created euid h n (lookup n (d.dirs h)) d)

-- The bytes that reach the file, of a write that fails or not.
abbrev pub written : Bool → Disk → Bytes → Bytes
written true d s = d.torn s
written false d s = s

-- What a handle on the file of that name does to it: the file itself is `e`.
unfoldable pub write_file : Bytes → Entry → Bytes → Action Entry
write_file h e s d =
    let fault = d.fails d.calls in
    let e' = record e { contents = e.contents ++ written fault d s } in
    (if fault then failed failure else done e', set_dir h (placed e' (d.dirs h)) (called d))

unfoldable pub chmod_file : Bytes → Entry → ℕ → Action Entry
chmod_file h e mode = call (λ d.
    let e' = record e { info = record e.info { perm = mode } } in
    (done e', set_dir h (placed e' (d.dirs h)) d))

-- What a LimitReader on the file gives.
unfoldable pub read_file : Entry → ℕ → Action Bytes
read_file e n = call (pure (take n e.contents))

-- One read of the random source.
unfoldable pub draw_nonce : Action Bytes
draw_nonce d = (d.nonce d.draws, record d { draws = suc d.draws })

-- What others do meanwhile.
unfoldable pub interleave : (Disk → Disk) → Action (Unit {0})
interleave others d = (done tt, others d)

-- Sync, and Close.
unfoldable pub touch : Action (Unit {0})
touch = call (pure tt)

-- The file that was found under the name `from`, if any, becomes the one named `to`.
unfoldable pub renamed : Bytes → Bytes → Bytes → Option Entry → Action (Unit {0})
renamed h from to none d = (failed missing, d)
renamed h from to (some e) d =
    (done tt, set_dir h (placed (record e { name = to }) (without from (d.dirs h))) d)

unfoldable pub rename_file : Bytes → Bytes → Bytes → Action (Unit {0})
rename_file h from to = call (λ d. renamed h from to (lookup from (d.dirs h)) d)

unfoldable pub remove_file : Bytes → Bytes → Action (Unit {0})
remove_file h n = call (λ d. elim (lookup n (d.dirs h)) [
  | none ↦ (failed missing, d)
  | some e ↦ (done tt, set_dir h (without n (d.dirs h)) d)
])

-- The file that was found under the name `from`, if any, is named `to` too, if that name is free.
unfoldable pub linked : Bytes → Bytes → Option Entry → Option Entry → Action (Unit {0})
linked h to taken none d = (failed missing, d)
linked h to (some x) (some e) d = (failed exists, d)
linked h to none (some e) d = (done tt, set_dir h (placed (record e { name = to }) (d.dirs h)) d)

unfoldable pub link_file : Bytes → Bytes → Bytes → Action (Unit {0})
link_file h from to = call (λ d. linked h to (lookup to (d.dirs h)) (lookup from (d.dirs h)) d)
