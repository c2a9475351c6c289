-- ===== src/Bootstrap/FileSeal/Publish.antt =====
-- pkg/userbootstrap/file_seal.go: what linking the temporary file to the seal's name does.
use re_casa_os_user_service.Prelude.{
  Bytes, ◌≡◌, none, some, refl, true, false, Option, arith, if◌then◌else◌, subst, sym,
}
use re_casa_os_user_service.Files.{Answer, done, failed, FileError, failure}
use re_casa_os_user_service.Files.Disk.{Disk, Entry, linked, call, link_file, called, lookup}
use re_casa_os_user_service.Files.Disk.Seen.{seen, seen-set_dir}

-- What a link does to the name `to` on a disk.
abbrev pub LinkedTo : Bytes → Bytes → Entry → Disk → Answer (Unit {0}) × Disk → Type 0
LinkedTo h to e d r =
    ((u : Unit {0})
      → r.0 ≡ done u
      → (seen h to d ≡ none) × (seen h to r.1 ≡ some (record e { name = to })))
    × ((x : FileError) → r.0 ≡ failed x → seen h to r.1 ≡ seen h to d)

linked_lem :
    (h to : Bytes) (taken : Option Entry) (e : Entry) (d : Disk)
    → seen h to d ≡ taken
    → LinkedTo h to e d (linked h to taken (some e) d)
unfolding linked
linked_lem h to (some x) e d p = (λ u z. absurd (ground (arith, z)), λ y z. refl)
linked_lem h to none e d p = (
  λ u z. (p, seen-set_dir h (record e { name = to }) (d.dirs h) d),
  λ y z. absurd (ground (arith, z)),
)

pub link_file_lem :
    (h from to : Bytes) (e : Entry) (d : Disk)
    → seen h from d ≡ some e
    → LinkedTo h to e d (link_file h from to d)
unfolding link_file call seen
link_file_lem h from to e d p =
    elim (d.fails d.calls)
      as (λ b. LinkedTo h to e d (
        if b
        then (failed failure, called d)
        else linked h to (lookup to (d.dirs h)) (lookup from (d.dirs h)) (called d))) [
          | true ↦ (λ u z. absurd (ground (arith, z)), λ y z. refl)
          | false ↦
              subst (λ r. LinkedTo h to e d (linked h to (lookup to (d.dirs h)) r (called d)))
                (sym p) (linked_lem h to (lookup to (d.dirs h)) e (called d) refl)
        ]
