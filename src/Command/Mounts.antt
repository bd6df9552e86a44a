-- ===== src/Command/Mounts.antt =====
-- The mounts of the command line, written and read back.
use wzprof.Base.{
  ℕ, ◌≡◌, ◌≢◌, refl, sym, ap, ap₂, ◌∙◌, arith, List, [], ◌∷◌, ◌++◌, append-nil, Bool, true, false,
  some, ==_refl, ne→==, All,
}
use wzprof.WasmBin.{bytes_eq}
use wzprof.Command.{
  cons_first, split_at, comma, colon, split, Mount, ro, mount_of, add_mount, create_fs_config,
}

-- A text without a byte.
abbrev pub Lacks : ℕ → List ℕ → Type 0
Lacks sep xs = All (λ (c : ℕ). c ≢ sep) xs

Lacks-append : (sep : ℕ) (xs ys : List ℕ) → Lacks sep xs → Lacks sep ys → Lacks sep (xs ++ ys)
Lacks-append sep [] ys l m = m
Lacks-append sep (x ∷ xs) ys l m = (l.0, Lacks-append sep xs ys l.1 m)

split_at-part :
    (sep : ℕ) (xs rest : List ℕ)
    → Lacks sep xs
    → split_at sep (xs ++ (sep ∷ rest)) ≡ xs ∷ split_at sep rest
unfolding split_at cons_first
split_at-part sep [] rest l = rw (==_refl sep) refl
split_at-part sep (x ∷ xs) rest l = rw (ne→== x sep l.0, split_at-part sep xs rest l.1) refl

split_at_last : (sep : ℕ) (xs : List ℕ) → Lacks sep xs → split_at sep xs ≡ xs ∷ []
unfolding split_at cons_first
split_at_last sep [] l = refl
split_at_last sep (x ∷ xs) l = rw (ne→== x sep l.0, split_at_last sep xs l.1) refl

-- A mount as `dir:guest`, or `dir:guest:ro`, and mounts with commas between them.
abbrev pub mode_text : Bool → List ℕ
mode_text true = colon ∷ ro
mode_text false = []

abbrev pub mount_text : Mount → List ℕ
mount_text m = m.dir ++ (colon ∷ (m.guest ++ mode_text m.read_only))

abbrev pub mounts_text : List Mount → List ℕ
mounts_text [] = []
mounts_text (m ∷ []) = mount_text m
mounts_text (m ∷ n ∷ ms) = mount_text m ++ (comma ∷ mounts_text (n ∷ ms))

-- The two paths have neither a comma nor a colon.
abbrev pub IsMount : Mount → Type 0
IsMount m = Lacks comma m.dir × Lacks colon m.dir × Lacks comma m.guest × Lacks colon m.guest

mode-Lacks : (sep : ℕ) (b : Bool) → sep ≢ colon → sep ≢ 114 → sep ≢ 111 → Lacks sep (mode_text b)
mode-Lacks sep true c r o = ((λ e. c (sym e)), ((λ e. r (sym e)), ((λ e. o (sym e)), tt)))
mode-Lacks sep false c r o = tt

mount_text-Lacks : (m : Mount) → IsMount m → Lacks comma (mount_text m)
mount_text-Lacks m (d, dc, g, gc) =
    Lacks-append comma m.dir (colon ∷ (m.guest ++ mode_text m.read_only)) d (
      (omega arith),
      Lacks-append comma m.guest (mode_text m.read_only) g
          (mode-Lacks comma m.read_only (omega arith) (omega arith) (omega arith)),
    )

-- The parts of a mount.
mode_parts :
    (dir guest : List ℕ) (b : Bool)
    → Lacks colon guest
    → mount_of (dir ∷ split_at colon (guest ++ mode_text b))
      ≡ some (record { dir = dir; guest = guest; read_only = b })
unfolding mount_of bytes_eq
mode_parts dir guest true l =
    rw (split_at-part colon guest ro l, split_at_last colon ro (omega arith)) refl
mode_parts dir guest false l = rw (append-nil guest, split_at_last colon guest l) refl

mount_parts : (m : Mount) → IsMount m → mount_of (split_at colon (mount_text m)) ≡ some m
mount_parts m (d, dc, g, gc) =
    ap mount_of (split_at-part colon m.dir (m.guest ++ mode_text m.read_only) dc)
    ∙ mode_parts m.dir m.guest m.read_only gc

create_fs_config-cons :
    (text : List ℕ) (texts : List (List ℕ)) (m : Mount) (ms : List Mount)
    → mount_of (split_at colon text) ≡ some m
    → create_fs_config texts ≡ some ms
    → create_fs_config (text ∷ texts) ≡ some (m ∷ ms)
unfolding create_fs_config
create_fs_config-cons text texts m ms h k = ap₂ add_mount h k

create_fs_config_none : create_fs_config [] ≡ some []
unfolding create_fs_config
create_fs_config_none = refl

create_fs_config-texts :
    (ms : List Mount) (m : Mount)
    → All IsMount (m ∷ ms)
    → create_fs_config (split_at comma (mounts_text (m ∷ ms))) ≡ some (m ∷ ms)
create_fs_config-texts [] m w =
    ap create_fs_config (split_at_last comma (mount_text m) (mount_text-Lacks m w.0))
    ∙ create_fs_config-cons (mount_text m) [] m [] (mount_parts m w.0) create_fs_config_none
create_fs_config-texts (n ∷ ms) m w =
    ap create_fs_config
      (split_at-part comma (mount_text m) (mounts_text (n ∷ ms)) (mount_text-Lacks m w.0))
    ∙ create_fs_config-cons (mount_text m) (split_at comma (mounts_text (n ∷ ms))) m (n ∷ ms)
        (mount_parts m w.0) (create_fs_config-texts ms n w.1)

split_nonempty :
    (xs : List ℕ) (c : ℕ) (cs : List ℕ) → split (xs ++ (c ∷ cs)) ≡ split_at comma (xs ++ (c ∷ cs))
unfolding split
split_nonempty [] c cs = refl
split_nonempty (x ∷ xs) c cs = refl

-- Mounts whose paths have neither a comma nor a colon, written as `dir:guest`, with `:ro` behind those that
-- are read-only and commas between them, are read back from the flag: `createFSConfig` adds them in order,
-- each with its paths and read-only exactly where it is. The empty text gives no mount.
pub create_fs_config-mounts_text :
    (ms : List Mount) → All IsMount ms → create_fs_config (split (mounts_text ms)) ≡ some ms
unfolding split
create_fs_config-mounts_text [] w = create_fs_config_none
create_fs_config-mounts_text (m ∷ []) w =
    ap create_fs_config (split_nonempty m.dir colon (m.guest ++ mode_text m.read_only))
    ∙ create_fs_config-texts [] m w
create_fs_config-mounts_text (m ∷ n ∷ ms) w =
    ap create_fs_config (split_nonempty (mount_text m) comma (mounts_text (n ∷ ms)))
    ∙ create_fs_config-texts (n ∷ ms) m w
