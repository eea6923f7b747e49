-- ===== src/Storage/Catalog.antt =====
-- The catalog of the raw log files, and what its steps keep of it
-- (src/comfyui_docker_helper/container/runtime/log_storage.py).
use comfyui_docker_helper.Prelude.{
  ℕ, zero, suc, ◌+◌, ◌-◌, ◌≤◌, ◌<◌, List, [], ◌∷◌, ◌++◌, length, drop, Option-cases, All,
  All-append, none, ltb, ◌==◌, arith, ◌≡◌, ◌≢◌, refl, sym, Bool-cases, inl, inr,
}
use comfyui_docker_helper.History.Windows.{window}
use comfyui_docker_helper.Storage.{FileSpan, Check, write_file}
use comfyui_docker_helper.Storage.Rotation.{remove_oldest}

-- A file of the catalog holds the bytes of the stream that its span says, and is not too large.
pub record Fits (f : ℕ → ℕ) (max_size acknowledged : ℕ) (disk : ℕ → List ℕ) (span : FileSpan)
    : Type 0 where
  pub ordered : span.start ≤ span.end
  pub whole_file : span.offset ≡ 0
  pub content : disk span.inode ≡ window f span.start (span.end - span.start)
  pub below : span.end ≤ acknowledged
  pub small : span.end ≤ span.start + max_size

-- No file of the catalog has this inode.
abbrev pub Fresh : ℕ → List FileSpan → Type 0
Fresh inode spans = All (λ (span : FileSpan). span.inode ≢ inode) spans

abbrev pub Distinct : List FileSpan → Type 0
Distinct [] = Unit
Distinct (span ∷ spans) = Fresh span.inode spans × Distinct spans

pub All-before {κ} :
    (P : FileSpan → Type κ) (before : List FileSpan) (active : FileSpan)
    → All P (before ++ active ∷ [])
    → All P before
All-before P [] active h = tt
All-before P (span ∷ before) active h = (h.0, All-before P before active h.1)

pub All-active {κ} :
    (P : FileSpan → Type κ) (before : List FileSpan) (active : FileSpan)
    → All P (before ++ active ∷ [])
    → P active
All-active P [] active h = h.0
All-active P (span ∷ before) active h = All-active P before active h.1

pub Distinct-snoc :
    (before : List FileSpan) (active : FileSpan)
    → Distinct before
    → Fresh active.inode before
    → Distinct (before ++ active ∷ [])
Distinct-snoc [] active h k = (tt, tt)
Distinct-snoc (span ∷ before) active h k = (
  All-append (λ (other : FileSpan). other.inode ≢ span.inode) before (active ∷ []) h.0
      ((λ e. k.0 (sym e)), tt),
  Distinct-snoc before active h.1 k.1,
)

pub Distinct-before :
    (before : List FileSpan) (active : FileSpan)
    → Distinct (before ++ active ∷ [])
    → Distinct before × Fresh active.inode before
Distinct-before [] active h = (tt, tt)
Distinct-before (span ∷ before) active h =
    let (d, fresh) = Distinct-before before active h.1 in
    (
      (All-before (λ (other : FileSpan). other.inode ≢ span.inode) before active h.0, d),
      (
        (λ e.
            All-active (λ (other : FileSpan). other.inode ≢ span.inode) before active h.0 (sym e)),
        fresh,
      ),
    )

-- Another file is written.
pub write_other :
    (inode other : ℕ) (content : List ℕ) (disk : ℕ → List ℕ)
    → other ≢ inode
    → write_file inode content disk other ≡ disk other
unfolding write_file
write_other inode other content disk differ = elim (Bool-cases (other == inode)) [
  | inl e ↦ absurd (differ (ground arith))
  | inr e ↦ rw e refl
]

pub write_same :
    (inode : ℕ) (content : List ℕ) (disk : ℕ → List ℕ)
    → write_file inode content disk inode ≡ content
unfolding write_file
write_same inode content disk = ground arith

-- Removing the oldest files leaves the later ones.
pub remove_oldest-drop :
    (fuel : ℕ) (removed : FileSpan → Check) (max_files : ℕ) (spans : List FileSpan)
    → (k : ℕ) × ((remove_oldest fuel removed max_files spans).1 ≡ drop k spans)
unfolding remove_oldest
remove_oldest-drop zero removed max_files spans = (0, refl)
remove_oldest-drop (suc fuel) removed max_files [] = (0, refl)
remove_oldest-drop (suc fuel) removed max_files (span ∷ spans) =
    elim (Bool-cases (ltb (length (span ∷ spans)) max_files)) [
      | inl e ↦ (0, rw e refl)
      | inr e ↦ elim (Option-cases (removed span)) [
        | inl fine ↦
            let (k, rest) = remove_oldest-drop fuel removed max_files spans in
            (suc k, rw (e, fine) rest)
        | inr (t, bad) ↦ (0, rw (e, bad) refl)
      ]
    ]

-- If every removal succeeds there is room for one more file.
pub remove_oldest-few :
    (fuel : ℕ) (removed : FileSpan → Check) (max_files : ℕ) (spans : List FileSpan)
    → 0 < max_files
    → length spans ≤ fuel
    → (remove_oldest fuel removed max_files spans).0 ≡ none
    → length (remove_oldest fuel removed max_files spans).1 < max_files
unfolding remove_oldest
remove_oldest-few zero removed max_files [] pos enough e = pos
remove_oldest-few zero removed max_files (span ∷ spans) pos enough e = absurd (omega arith)
remove_oldest-few (suc fuel) removed max_files [] pos enough e = pos
remove_oldest-few (suc fuel) removed max_files (span ∷ spans) pos enough e =
    ground (arith, remove_oldest-few fuel removed max_files spans pos (omega arith))

pub All-drop {κ} :
    (P : FileSpan → Type κ) (k : ℕ) (spans : List FileSpan) → All P spans → All P (drop k spans)
All-drop P zero spans h = h
All-drop P (suc k) [] h = h
All-drop P (suc k) (span ∷ spans) h = All-drop P k spans h.1

pub Distinct-drop : (k : ℕ) (spans : List FileSpan) → Distinct spans → Distinct (drop k spans)
Distinct-drop zero spans h = h
Distinct-drop (suc k) [] h = h
Distinct-drop (suc k) (span ∷ spans) h = Distinct-drop k spans h.1
