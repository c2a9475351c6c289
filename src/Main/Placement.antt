-- ===== src/Main/Placement.antt =====
-- main.go: requireSealOutsideDatabase and resolveThroughExistingAncestor. A clean absolute path is
-- the list of its components, from the root on; the path of the root has none.
pub mod Loop
pub mod Outside
pub mod Ancestor
use re_casa_os_user_service.Prelude.{
  ℕ, ◌∷◌, Bytes, List, Bool, Option, codes, none, true, [], if◌then◌else◌, bytes_eq, not, some, suc,
  ◌++◌, false, map, zero, length,
}
use re_casa_os_user_service.Files.{
  Answer, Info, ◌>>=◌, reject, done, failed, invalid_seal, failure, missing,
}

abbrev pub Components : Type 0
Components = List Bytes

-- What the system answers for a clean absolute path: Lstat and EvalSymlinks.
pub record PathSystem : Type 0 where
  pub lstat : Components → Answer Info
  pub eval_symlinks : Components → Answer Components

-- filepath.Dir; of the root it is the root.
unfoldable pub path_parent : Components → Components
path_parent [] = []
path_parent (c ∷ []) = []
path_parent (c ∷ c' ∷ p) = c ∷ path_parent (c' ∷ p)

-- filepath.Base of a path that is not the root.
unfoldable pub path_name : Components → Bytes
path_name [] = []
path_name (c ∷ []) = c
path_name (c ∷ c' ∷ p) = path_name (c' ∷ p)

-- `parent == probe`
abbrev pub is_root : Components → Bool
is_root [] = true
is_root (c ∷ p) = false

-- The components that are missing are joined from the outermost on.
abbrev pub rejoined : Components → Answer Components → Answer Components
rejoined missing_names resolved = do r ← resolved; done (r ++ missing_names)

-- One turn of the loop, with what the next turn gives; `none` is a loop that did not end yet.
unfoldable pub probe_step :
    PathSystem
    → Components
    → Components
    → Answer Info
    → Option (Answer Components)
    → Option (Answer Components)
probe_step sys probe missing_names (done i) rest =
    some (rejoined missing_names (sys.eval_symlinks probe))
probe_step sys probe missing_names (failed missing) rest =
    if is_root probe then some (failed failure) else rest
probe_step sys probe missing_names (failed e) rest = some (failed e)

unfoldable pub probe_loop : PathSystem → ℕ → Components → Components → Option (Answer Components)
probe_loop sys zero probe missing_names = none
probe_loop sys (suc n) probe missing_names =
    probe_step sys probe missing_names (sys.lstat probe)
      (probe_loop sys n (path_parent probe) (path_name probe ∷ missing_names))

-- The path is absolute and clean, or could not be made so.
unfoldable pub resolve_through_existing_ancestor :
    PathSystem → ℕ → Answer Components → Option (Answer Components)
resolve_through_existing_ancestor sys fuel (failed e) = some (failed e)
resolve_through_existing_ancestor sys fuel (done p) = probe_loop sys fuel p []

abbrev pub parent_name : Bytes
parent_name = codes ".."

-- filepath.Rel of two clean absolute paths: up from the base to where the paths part, and down.
unfoldable pub relative_path : Components → Components → Components
relative_path [] target = target
relative_path (b ∷ base) [] = parent_name ∷ relative_path base []
relative_path (b ∷ base) (t ∷ target) =
    if bytes_eq b t
    then relative_path base target
    else (map (λ x. parent_name) (b ∷ base) ++ (t ∷ target))

-- `relative == "." || (relative != ".." && !strings.HasPrefix(relative, "../"))`
unfoldable pub stays_inside : Components → Bool
stays_inside [] = true
stays_inside (c ∷ p) = not (bytes_eq c parent_name)

abbrev pub enough_turns : Answer Components → ℕ
enough_turns (done p) = suc (length p)
enough_turns (failed e) = 1

abbrev pub finished : Option (Answer Components) → Answer Components
finished (some a) = a
finished none = failed failure

-- What the loop ends with.
unfoldable pub resolved : PathSystem → Answer Components → Answer Components
resolved sys a = finished (resolve_through_existing_ancestor sys (enough_turns a) a)

unfoldable pub require_seal_outside_database :
    PathSystem → Answer Components → Answer Components → Answer (Unit {0})
require_seal_outside_database sys database seal = do
  d ← resolved sys database
  s ← resolved sys seal
  reject (stays_inside (relative_path d s)) invalid_seal
