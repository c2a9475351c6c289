-- ===== src/Bootstrap/FileSeal/Succeeds.antt =====
-- pkg/userbootstrap/file_seal.go: Create on a clean directory returns.
use re_casa_os_user_service.Prelude.{
  refl, Bytes, ◌≡◌, has_prefix, some, true, none, ◌++◌, ap, subst, ◌∙◌, not, sym,
}
use re_casa_os_user_service.Files.{done, reject, invalid_seal, Answer}
use re_casa_os_user_service.Files.Disk.{
  Disk, Entry, chmod_file, write_file, set_dir, placed, called, attempt, ignore, lift, touch,
  Action, interleave, link_file, lookup, ◌>>◌, remove_file,
}
use re_casa_os_user_service.Bootstrap.FileSeal.{
  FileSeal, temporary_seal_prefix, seal_mode, print_seal, create, fill_seal, publish_file,
  sync_directory, publish, after_link, unless_sealed,
}
use re_casa_os_user_service.Bootstrap.FileSeal.Temporary.{IsTemporarySeal, beside}
use re_casa_os_user_service.Files.Disk.Seen.{seen, seen-set_dir}
use re_casa_os_user_service.Files.Disk.Succeeds.{
  Succeeds, Succeeds-bind, Succeeds-lift, Quiet, Succeeds-pure, Succeeds-attempt, Succeeds-touch,
}
use re_casa_os_user_service.Bootstrap.FileSeal.Live.{
  Free, Ready, Succeeds-eq, Succeeds-given, chmod_file-Quiet, write_file-Quiet,
  Succeeds-create_temp, link_file-Quiet,
}
use re_casa_os_user_service.Bootstrap.FileSeal.Register.{value_of, sealed, stay}
use re_casa_os_user_service.Bootstrap.FileSeal.Refine.{create_refines}
use re_casa_os_user_service.Bootstrap.FileSeal.Create.{Neighbour}
use re_casa_os_user_service.Bootstrap.FileSeal.Clean.{Sound, owned_lem, kept_base, Succeeds-load}

module _ (s : FileSeal) (i : Bytes) (ok_seal : Sound s i) where
  -- The file after its mode was set: the process owns it.
  abbrev Secured : Entry → Entry → Disk → Type 0
  Secured t e d =
      Free s ok_seal.proper d × (e ≡ record t { info = record t.info { perm = seal_mode } })

  Succeeds-chmod_file :
      (t : Entry)
      → IsTemporarySeal t
      → Succeeds (Free s ok_seal.proper) (Secured t) (chmod_file s.path_dir t seal_mode)
  Succeeds-chmod_file t q = Succeeds-eq _ (λ d (quiet, free).
      let e = record t { info = record t.info { perm = seal_mode } } in
      (
        e,
        set_dir s.path_dir (placed e (d.dirs s.path_dir)) (called d),
        chmod_file-Quiet s.path_dir t seal_mode d quiet,
        ((quiet, kept_base s i ok_seal e d (beside s t.name ok_seal.proper q.0) free), refl),
      ))

  Succeeds-write_file :
      (t e : Entry)
      → has_prefix e.name temporary_seal_prefix ≡ true
      → Succeeds
          (Free s ok_seal.proper)
          (λ x d. Free s ok_seal.proper d × (seen s.path_dir x.name d ≡ some x))
          (write_file s.path_dir e (print_seal i))
  Succeeds-write_file t e named = Succeeds-eq _ (λ d (quiet, free).
      let x = record e { contents = e.contents ++ print_seal i } in
      (
        x,
        set_dir s.path_dir (placed x (d.dirs s.path_dir)) (called d),
        write_file-Quiet s.path_dir e (print_seal i) d quiet,
        (
          (quiet, kept_base s i ok_seal x d (beside s e.name ok_seal.proper named) free),
          seen-set_dir s.path_dir x (d.dirs s.path_dir) (called d),
        ),
      ))

  Succeeds-Free-touch : Succeeds (Free s ok_seal.proper) (λ u. Free s ok_seal.proper) touch
  unfolding seen
  Succeeds-Free-touch = Succeeds-touch (λ f. lookup s.path_base (f s.path_dir) ≡ none)

  -- The directory shows the temporary file, and no seal.
  abbrev Shown : Entry → Disk → Type 0
  Shown x d = Free s ok_seal.proper d × (seen s.path_dir x.name d ≡ some x)

  Succeeds-Shown-touch : (x : Entry) → Succeeds (Shown x) (λ u. Shown x) touch
  unfolding seen
  Succeeds-Shown-touch x = record {
    at = λ d ((q, f), p).
        let (u, e, (q', (f', p'))) =
          (Succeeds-touch (λ g.
              (lookup s.path_base (g s.path_dir) ≡ none)
              × (lookup x.name (g s.path_dir) ≡ some x))).at
            d (q, (f, p)) in
        (u, e, ((q', f'), p'));
  }

  Succeeds-fill_seal :
      (t : Entry)
      → IsTemporarySeal t
      → t.info.owner ≡ some s.euid
      → Succeeds (Free s ok_seal.proper) Shown (fill_seal s (λ d. d) i t)
  unfolding fill_seal
  Succeeds-fill_seal t q owner = Succeeds-bind _ _ _ _ _ (Succeeds-chmod_file t q) (λ e.
      Succeeds-given _ (λ same. Succeeds-bind _ _ _ _ _ Succeeds-Free-touch (λ u.
        Succeeds-bind _ _ _ _ _
          (Succeeds-lift (Free s ok_seal.proper) _ tt (
            ap (λ b. reject (not b) invalid_seal)
              (owned_lem s.owner_uid s.euid e.info.owner ok_seal.owns
                (ap (λ (y : Entry). y.info.owner) same ∙ owner))))
          (λ v. Succeeds-given _ (λ r.
            Succeeds-bind _ Shown _ _ _
              (Succeeds-write_file t e
                (ap (λ (y : Entry). has_prefix y.name temporary_seal_prefix) same ∙ q.0))
              (λ x. Succeeds-bind _ _ _ _ _ (Succeeds-Shown-touch x) (λ u'.
                Succeeds-bind _ _ _ _ _ (Succeeds-Shown-touch x)
                  (λ u''. Succeeds-pure Shown x))))))))

  Succeeds-link :
      (x : Entry)
      → Succeeds
          (Shown x)
          (λ r d. Quiet d × (r ≡ done tt))
          (attempt (link_file s.path_dir x.name s.path_base))
  unfolding attempt
  Succeeds-link x = Succeeds-eq _ (λ d ((q, f), p). (
    done tt,
    set_dir s.path_dir (placed (record x { name = s.path_base }) (d.dirs s.path_dir)) (called d),
    ap (λ (r : Answer (Unit {0}) × Disk). (done r.0, r.1))
        (link_file-Quiet s.path_dir x.name s.path_base x d q p f),
    (q, refl),
  ))

  Succeeds-Quiet-touch : Succeeds Quiet (λ u. Quiet) touch
  Succeeds-Quiet-touch = record {
    at = λ d q. let (u, e, (q', y)) = (Succeeds-touch (λ g. Unit {0})).at d (q, tt) in (u, e, q');
  }

  Succeeds-ignore :
      {A : Type 0} {Pre : Disk → Type 0} (m : Action A) → Succeeds Pre (λ u d. Unit {0}) (ignore m)
  unfolding ignore
  Succeeds-ignore m = record { at = λ d p. (tt, refl, tt) }

  Succeeds-answer :
      (r : Answer (Unit {0})) → r ≡ done tt → Succeeds (λ d. Unit {0}) (λ u d. Unit {0}) (lift r)
  unfolding lift
  Succeeds-answer r e = record { at = λ d p. (tt, e, tt) }

  Succeeds-ignored :
      {A : Type 0} (m : Action A) (r : Answer (Unit {0}))
      → r ≡ done tt
      → Succeeds (λ d. Unit {0}) (λ u d. Unit {0}) (do ignore m; lift r)
  Succeeds-ignored m r e =
      Succeeds-bind _ (λ u d. Unit {0}) _ _ _ (Succeeds-ignore m) (λ u. Succeeds-answer r e)

  Succeeds-sync_directory : Succeeds Quiet (λ u d. Unit {0}) sync_directory
  unfolding sync_directory
  Succeeds-sync_directory =
      Succeeds-bind _ (λ u. Quiet) _ _ _ Succeeds-Quiet-touch
        (λ u.
          Succeeds-bind _ (λ r d. (a : Unit {0}) × (r ≡ done a) × Quiet d) _ _ _
            (Succeeds-attempt _ (λ v. Quiet) _ Succeeds-Quiet-touch)
            (λ synced. record { at = λ d (v, e, q). (Succeeds-ignored touch synced e).at d tt }))

  Succeeds-publish_file :
      (t : Entry)
      → IsTemporarySeal t
      → t.info.owner ≡ some s.euid
      → Succeeds (Free s ok_seal.proper) (λ u d. Unit {0}) (publish_file s (λ d. d) i t)
  unfolding publish_file interleave after_link
  Succeeds-publish_file t q owner = Succeeds-bind _ _ _ _ _ (Succeeds-fill_seal t q owner) (λ full.
      Succeeds-bind _ (λ u. Shown full) _ _ _ (record { at = λ d p. (tt, refl, p) })
        (λ u. Succeeds-bind _ _ _ _ _ (Succeeds-link full) (λ r. Succeeds-given _ (λ e.
          subst (λ z. Succeeds Quiet (λ u' d. Unit {0}) (after_link s (λ d. d) i z)) (sym e)
            Succeeds-sync_directory))))

  Succeeds-tidied :
      (t : Entry) (r : Answer (Unit {0}))
      → r ≡ done tt
      → Succeeds
          (λ d. Unit {0})
          (λ u d. Unit {0})
          (do ignore touch; ignore (remove_file s.path_dir t.name); lift r)
  Succeeds-tidied t r e =
      Succeeds-bind _ (λ u d. Unit {0}) _ _ _ (Succeeds-ignore touch)
        (λ u. Succeeds-ignored (remove_file s.path_dir t.name) r e)

  Succeeds-publish :
      (x : Bytes) → Succeeds (Ready s ok_seal.proper x) (λ u d. Unit {0}) (publish s (λ d. d) i)
  unfolding publish
  Succeeds-publish x = Succeeds-bind _ _ _ _ _ (Succeeds-lift _ _ tt ok_seal.ensured) (λ u.
      Succeeds-given _ (λ e.
        Succeeds-bind _ _ _ _ _ (Succeeds-create_temp s ok_seal.proper x 9999) (λ t.
          Succeeds-given _ (λ made.
            Succeeds-bind _ (λ r d. (a : Unit {0}) × (r ≡ done a) × Unit {0}) _ _ _
              (Succeeds-attempt _ (λ v d. Unit {0}) _ (Succeeds-publish_file t made.0 made.1))
              (λ outcome. record { at = λ d (v, z, y). (Succeeds-tidied t outcome z).at d tt })))))

  Succeeds-create :
      (x : Bytes) → Succeeds (Ready s ok_seal.proper x) (λ u d. Unit {0}) (create s (λ d. d) i)
  unfolding create unless_sealed
  Succeeds-create x =
      Succeeds-bind _ _ _ _ _
        (Succeeds-lift _ _ tt (ap (λ b. reject (not b) invalid_seal) ok_seal.valid))
        (λ u. Succeeds-given _ (λ e. Succeeds-bind _ _ _ _ _ (Succeeds-load s i ok_seal x) (λ v.
          Succeeds-given _ (λ n.
            subst
              (λ z.
                Succeeds (Ready s ok_seal.proper x) (λ u' d. Unit {0})
                  (unless_sealed s (λ d. d) i z))
              (sym n) (Succeeds-publish x)))))

nobody-Neighbour : (s : FileSeal) → Neighbour s (λ d. d)
nobody-Neighbour s = record { advances = λ d. stay; leaves = λ n p d. refl }

-- Create succeeds, and the seal has the id, for a valid id, in a directory that is in order and owned
-- by the process, if there is no seal, a temporary name is free, no call fails and nobody
-- interferes.
pub create_succeeds :
    (s : FileSeal) (i x : Bytes) (d : Disk) (sound : Sound s i)
    → Ready s sound.proper x d
    → ((create s (λ d'. d') i d).0 ≡ done tt) × (value_of s (create s (λ d'. d') i d).1 ≡ sealed i)
create_succeeds s i x d sound ready =
    let (u, e, y) = (Succeeds-create s i sound x).at d ready in
    (e, (create_refines s (λ d'. d') i d sound.proper (nobody-Neighbour s)).1 e)
