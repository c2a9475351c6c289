-- ===== src/Bootstrap/FileSeal/Directory.antt =====
-- pkg/userbootstrap/file_seal.go: the checks of the seal's directory and of its ancestors.
use re_casa_os_user_service.Prelude.{◌∷◌, ℕ, List, Bool, ◌&&◌, ◌||◌, not, if◌then◌else◌, []}
use re_casa_os_user_service.Files.{
  ◌>>=◌, ◌>>◌, Answer, done, failed, Info, or_as, reject, invalid_seal, failure, missing, owned_by,
  writable_by_others,
}

-- What the system answers: Lstat and EvalSymlinks for each component of the path, then Lstat for the
-- directory, and all of it again after MkdirAll.
pub record SealDirectory : Type 0 where
  pub ancestors : List (Answer Info × Answer (Unit {0}))
  pub info : Answer Info
  pub mkdir : Answer (Unit {0})
  pub ancestors_made : List (Answer Info × Answer (Unit {0}))
  pub info_made : Answer Info

-- One component: it stops the walk, fails it, or lets it go on with the rest.
unfoldable pub ancestor : Answer Info → Answer (Unit {0}) → Answer (Unit {0}) → Answer (Unit {0})
ancestor (failed missing) resolved rest = done tt
ancestor (failed e) resolved rest = failed e
ancestor (done i) resolved rest = do
  reject (i.is_symlink && not (owned_by 0 i)) invalid_seal
  (if i.is_symlink then or_as failure resolved else done tt)
  reject (not i.is_symlink && not i.is_dir) invalid_seal
  rest

unfoldable pub reject_symlink_ancestors : List (Answer Info × Answer (Unit {0})) → Answer (Unit {0})
reject_symlink_ancestors [] = done tt
reject_symlink_ancestors ((found, resolved) ∷ rest) =
    ancestor found resolved (reject_symlink_ancestors rest)

unfoldable pub unsafe_seal_directory : ℕ → Info → Bool
unsafe_seal_directory owner i =
    i.is_symlink || not i.is_dir || not (owned_by owner i) || writable_by_others i

unfoldable pub validate_existing_seal_directory : ℕ → SealDirectory → Answer (Unit {0})
validate_existing_seal_directory owner p = do
  reject_symlink_ancestors p.ancestors
  i ← p.info
  reject (unsafe_seal_directory owner i) invalid_seal

-- The directory, made if it is missing.
unfoldable pub found_or_made : SealDirectory → Answer Info → Answer Info
found_or_made p (done i) = done i
found_or_made p (failed missing) = do
  p.mkdir
  reject_symlink_ancestors p.ancestors_made
  or_as failure p.info_made
found_or_made p (failed e) = failed e

unfoldable pub ensure_seal_directory : ℕ → SealDirectory → Answer (Unit {0})
ensure_seal_directory owner p = do
  reject_symlink_ancestors p.ancestors
  i ← found_or_made p p.info
  reject (unsafe_seal_directory owner i) invalid_seal

-- What the system answers about the directory once ensure_seal_directory has run.
unfoldable pub refreshed : SealDirectory → Answer Info → SealDirectory
refreshed p (done i) = p
refreshed p (failed e) = record p { ancestors = p.ancestors_made; info = p.info_made }
