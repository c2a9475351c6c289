-- ===== src/Files/Disk/Seen.antt =====
-- What a directory shows under a name after a file was put, removed or renamed.
use re_casa_os_user_service.Prelude.{
  Bytes, ◌≡◌, ◌≢◌, Option, ◌⊎◌, bytes_eq, List, find_where, Bool-cases, inr, delete_where, false,
  if◌then◌else◌, some, arith, inl, ◌∷◌, bytes_eq_iff, bytes_eq→eq, bytes_eq_refl, sym, ap, ◌∙◌, [],
  refl,
}
use re_casa_os_user_service.Files.Disk.{Disk, set_dir, lookup, without, Entry, placed}

-- The file of the name `n` in the directory `h`.
unfoldable pub seen : Bytes → Bytes → Disk → Option Entry
seen h n d = lookup n (d.dirs h)

pub neq→bytes_eq : (s t : Bytes) → s ≢ t → bytes_eq s t ≡ false
neq→bytes_eq s t h = elim (Bool-cases (bytes_eq s t)) [
  | inl e ↦ absurd (h (bytes_eq→eq s t e))
  | inr e ↦ e
]

pub lookup-without : (n m : Bytes) (l : List Entry) → m ≢ n → lookup n (without m l) ≡ lookup n l
unfolding lookup without find_where delete_where
lookup-without n m [] h = refl
lookup-without n m (e ∷ l) h = elim (Bool-cases (bytes_eq e.name m)) [
  | inl t ↦
      (let f = neq→bytes_eq e.name n (λ q. h (sym (bytes_eq→eq e.name m t) ∙ q)) in
        ground (arith, t, f, lookup-without n m l h))
  | inr t ↦ ground (arith, t, lookup-without n m l h)
]

pub lookup-placed :
    (n : Bytes) (e : Entry) (l : List Entry)
    → lookup n (placed e l) ≡ (if bytes_eq e.name n then some e else lookup n l)
unfolding lookup placed find_where
lookup-placed n e l = elim (Bool-cases (bytes_eq e.name n)) [
  | inl t ↦ ground (arith, t)
  | inr t ↦
      ground
        (arith, t, lookup-without n e.name l (λ q. ground (arith, t, (bytes_eq_iff e.name n).1 q)))
]

-- Another directory, or another name.
abbrev pub Elsewhere : Bytes → Bytes → Bytes → Bytes → Type 0
Elsewhere h n h' n' = (h' ≢ h) ⊎ (n' ≢ n)

-- What a call that puts the file `e` does.
pub seen-placed :
    (h n h' : Bytes) (e : Entry) (d : Disk)
    → Elsewhere h n h' e.name
    → seen h n (set_dir h' (placed e (d.dirs h')) d) ≡ seen h n d
unfolding seen
seen-placed h n h' e d o = elim (Bool-cases (bytes_eq h h')) [
  | inr t ↦ ground (arith, t)
  | inl t ↦ elim o [
    | inl q ↦ absurd (q (sym (bytes_eq→eq h h' t)))
    | inr q ↦ ground (
      arith,
      t,
      ap d.dirs (bytes_eq→eq h h' t),
      lookup-placed n e (d.dirs h'),
      neq→bytes_eq e.name n q,
    )
  ]
]

pub seen-without :
    (h n h' m : Bytes) (d : Disk)
    → Elsewhere h n h' m
    → seen h n (set_dir h' (without m (d.dirs h')) d) ≡ seen h n d
unfolding seen
seen-without h n h' m d o = elim (Bool-cases (bytes_eq h h')) [
  | inr t ↦ ground (arith, t)
  | inl t ↦ elim o [
    | inl q ↦ absurd (q (sym (bytes_eq→eq h h' t)))
    | inr q ↦ ground (arith, t, ap d.dirs (bytes_eq→eq h h' t), lookup-without n m (d.dirs h') q)
  ]
]

pub seen-renamed :
    (h n h' from : Bytes) (e : Entry) (d : Disk)
    → Elsewhere h n h' from
    → Elsewhere h n h' e.name
    → seen h n (set_dir h' (placed e (without from (d.dirs h'))) d) ≡ seen h n d
unfolding seen
seen-renamed h n h' from e d o o' = elim (Bool-cases (bytes_eq h h')) [
  | inr t ↦ ground (arith, t)
  | inl t ↦ elim o [
    | inl q ↦ absurd (q (sym (bytes_eq→eq h h' t)))
    | inr q ↦ elim o' [
      | inl q' ↦ absurd (q' (sym (bytes_eq→eq h h' t)))
      | inr q' ↦ ground (
        arith,
        t,
        ap d.dirs (bytes_eq→eq h h' t),
        lookup-placed n e (without from (d.dirs h')),
        neq→bytes_eq e.name n q',
        lookup-without n from (d.dirs h') q,
      )
    ]
  ]
]

-- The name that a file was put under shows that file.
pub seen-set_dir :
    (h : Bytes) (e : Entry) (l : List Entry) (d : Disk)
    → seen h e.name (set_dir h (placed e l) d) ≡ some e
unfolding seen
seen-set_dir h e l d =
    ground (arith, bytes_eq_refl h, bytes_eq_refl e.name, lookup-placed e.name e l)
