-- ===== src/Storage/File/Backups.antt =====
-- The names of the backups and what they hold behind a rotation.
use change_of_system.Base.{
  ℕ, zero, suc, ◌-◌, ◌<◌, ◌≡◌, ◌≢◌, refl, sym, ap, ◌∙◌, inl, inr, Bool, false, Option, none, some,
  [], ◌∷◌, ◌++◌, Text, text_key, text_beq, text_beq_iff, nat_beq, nat_beq_iff, leb, ltb, lookup,
  erase, lookup-insert, lookup-erase, length, length-append, decimal, codes, Bool-cases, some_inj,
  arith, if◌then◌else◌,
}
use change_of_system.Config.Store.{digits_from}
use change_of_system.Config.Store.Access.{digits_from-decimal}
use change_of_system.Storage.Disk.{Files, moved, rename}
use change_of_system.Storage.File.{backup, shift_backups, rotated_files}

decimal_inj : (m n : ℕ) → decimal m ≡ decimal n → m ≡ n
decimal_inj m n h =
    some_inj (sym (digits_from-decimal m) ∙ ap (digits_from none) h ∙ digits_from-decimal n)

append_inj : (s t u : Text) → s ++ t ≡ s ++ u → t ≡ u
append_inj [] t u h = h
append_inj (c ∷ s) t u h = append_inj s t u (cc h)

backup_inj : (path : Text) (i j : ℕ) → backup path i ≡ backup path j → i ≡ j
unfolding backup
backup_inj path i j h = decimal_inj i j (append_inj (path ++ codes ".") (decimal i) (decimal j) h)

backup_beq : (path : Text) (i j : ℕ) → text_beq (backup path i) (backup path j) ≡ nat_beq i j
backup_beq path i j =
    ground
      (arith, text_beq_iff (backup path i) (backup path j), nat_beq_iff i j, backup_inj path i j)

pub path_beq : (path : Text) (i : ℕ) → text_beq (backup path i) path ≡ false
unfolding backup
path_beq path i = elim (Bool-cases (text_beq (backup path i) path)) [
  | inl same ↦ absurd (
      ground (
        arith,
        ap length ((text_beq_iff (backup path i) path).0 same),
        length-append (path ++ codes ".") (decimal i),
        length-append path (codes "."),
      ))
  | inr other ↦ other
]

pub other_path : (path : Text) (i : ℕ) → text_beq path (backup path i) ≡ false
other_path path i =
    ground
      (arith, path_beq path i, text_beq_iff (backup path i) path, text_beq_iff path (backup path i))

abbrev pub renamed : Option Text → Bool → Bool → Option Text → Option Text
renamed none to from old = old
renamed (some text) to from old = if to then some text else if from then none else old

pub lookup-rename :
    (name source target : Text) (files : Files)
    → lookup name (rename source target files)
      ≡ renamed
          (lookup source files)
          (text_beq target name)
          (text_beq source name)
          (lookup name files)
unfolding rename
lookup-rename name source target files = go (lookup source files)
  where
    go :
        (o : Option Text)
        → lookup name (moved source target o files)
          ≡ renamed o (text_beq target name) (text_beq source name) (lookup name files)
    go none = refl
    go (some text) =
        ground (
          arith,
          lookup-insert name target text (erase source files),
          lookup-erase name source files,
        )

lookup-shift_backups :
    (path : Text) (k j : ℕ) (files : Files)
    → lookup (backup path (suc k)) files ≡ none
    → lookup (backup path (suc j)) (shift_backups path k files) ≡ (
        if nat_beq j 0
        then none
        else if leb j k
        then lookup (backup path j) files
        else lookup (backup path (suc j)) files)
unfolding shift_backups
lookup-shift_backups path zero zero files h = h
lookup-shift_backups path zero (suc j) files h = ground arith
lookup-shift_backups path (suc k) j files h =
    let next : Files = rename (backup path (suc k)) (backup path (suc (suc k))) files in
    let emptied : lookup (backup path (suc k)) next ≡ none = ground (
      arith,
      lookup-rename (backup path (suc k)) (backup path (suc k)) (backup path (suc (suc k))) files,
      backup_beq path (suc (suc k)) (suc k),
      backup_beq path (suc k) (suc k),
    ) in
    ground (
      arith,
      h,
      lookup-shift_backups path k j next emptied,
      lookup-rename (backup path j) (backup path (suc k)) (backup path (suc (suc k))) files,
      lookup-rename (backup path (suc j)) (backup path (suc k)) (backup path (suc (suc k))) files,
      backup_beq path (suc (suc k)) j,
      backup_beq path (suc k) j,
      backup_beq path (suc (suc k)) (suc j),
      backup_beq path (suc k) (suc j),
    )

-- The file of which the backup with the number `i + 1` is made: the file of events itself or the
-- backup below.
abbrev pub version : Text → ℕ → Text
version path zero = path
version path (suc i) = backup path (suc i)

lookup-shift_backups_other :
    (name path : Text) (k : ℕ) (files : Files)
    → ((i : ℕ) → text_beq (backup path i) name ≡ false)
    → lookup name (shift_backups path k files) ≡ lookup name files
unfolding shift_backups
lookup-shift_backups_other name path zero files h = refl
lookup-shift_backups_other name path (suc k) files h =
    let next : Files = rename (backup path (suc k)) (backup path (suc (suc k))) files in
    ground (
      arith,
      lookup-shift_backups_other name path k next h,
      lookup-rename name (backup path (suc k)) (backup path (suc (suc k))) files,
      h (suc k),
      h (suc (suc k)),
    )

module _ (path : Text) (k : ℕ) (files : Files) where
  -- The files when the oldest backup has gone and the others are moved up.
  abbrev shifted : Files
  shifted = shift_backups path k (erase (backup path (suc k)) files)

  rotated_files-shifted : rotated_files path (suc k) files ≡ rename path (backup path 1) shifted
  unfolding rotated_files
  rotated_files-shifted =
      let less : suc k - 1 ≡ k = omega arith in
      ap
        (λ n.
          rename path (backup path 1) (shift_backups path n (erase (backup path (suc k)) files)))
        less

  abbrev erased : Files
  erased = erase (backup path (suc k)) files

  oldest : lookup (backup path (suc k)) erased ≡ none
  oldest = ground (
    arith,
    lookup-erase (backup path (suc k)) (backup path (suc k)) files,
    backup_beq path (suc k) (suc k),
  )

  lookup-rotated_backup :
      (i : ℕ)
      → lookup (backup path (suc i)) (rotated_files path (suc k) files) ≡ (
          if ltb i (suc k)
          then lookup (version path i) files
          else lookup (backup path (suc i)) files)
  lookup-rotated_backup zero =
      ap (lookup (backup path 1)) rotated_files-shifted
      ∙ ground (
        arith,
        lookup-rename (backup path 1) path (backup path 1) shifted,
        lookup-shift_backups path k 0 erased oldest,
        lookup-shift_backups_other path path k erased (path_beq path),
        lookup-erase path (backup path (suc k)) files,
        path_beq path (suc k),
        backup_beq path 1 1,
        other_path path 1,
      )
  lookup-rotated_backup (suc i) =
      ap (lookup (backup path (suc (suc i)))) rotated_files-shifted
      ∙ ground (
        arith,
        lookup-rename (backup path (suc (suc i))) path (backup path 1) shifted,
        lookup-shift_backups path k (suc i) erased oldest,
        lookup-erase (backup path (suc i)) (backup path (suc k)) files,
        lookup-erase (backup path (suc (suc i))) (backup path (suc k)) files,
        backup_beq path (suc k) (suc i),
        backup_beq path (suc k) (suc (suc i)),
        backup_beq path 1 (suc (suc i)),
        other_path path (suc (suc i)),
      )

  lookup-rotated_other :
      (name : Text)
      → ((i : ℕ) → text_beq (backup path i) name ≡ false)
      → lookup name (rotated_files path (suc k) files)
        ≡ (if text_beq path name then none else lookup name files)
  lookup-rotated_other name h =
      ap (lookup name) rotated_files-shifted
      ∙ ground (
        arith,
        lookup-rename name path (backup path 1) shifted,
        lookup-shift_backups_other name path k (erase (backup path (suc k)) files) h,
        lookup-erase name (backup path (suc k)) files,
        h 1,
        h (suc k),
        text_beq_iff path name,
      )

-- What a name holds behind a rotation that keeps `n` backups.
pub rotated-versions :
    (path : Text) (n : ℕ) (files : Files)
    → 0 < n
    → ((i : ℕ)
        → lookup (backup path (suc i)) (rotated_files path n files)
          ≡ (if ltb i n then lookup (version path i) files else lookup (backup path (suc i)) files))
      × ((name : Text)
          → ((i : ℕ) → backup path i ≢ name)
          → lookup name (rotated_files path n files)
            ≡ (if text_beq path name then none else lookup name files))
rotated-versions path zero files h = absurd (ground (arith, h))
rotated-versions path (suc k) files h = (
  lookup-rotated_backup path k files,
  λ name other.
      lookup-rotated_other path k files name
        (λ i. ground (arith, text_beq_iff (backup path i) name, other i)),
)
