-- ===== src/Storage/Opening.antt =====
-- What a valid store is, and what the opening of a new active file keeps of it
-- (src/comfyui_docker_helper/container/runtime/log_storage.py).
use comfyui_docker_helper.Prelude.{
  split_last-snoc, split_last, ℕ, ◌-◌, ◌≤◌, ◌<◌, Bool, true, false, List, [], ◌∷◌, ◌++◌, length,
  length-append, All, All-append, none, some, if◌then◌else◌, leb, arith, ◌≡◌, refl, sym, ap, ◌∙◌,
}
use comfyui_docker_helper.History.Windows.{window}
use comfyui_docker_helper.Storage.{
  FileSpan, RawLogStore, Check, Ended, RotateAnswers, write_file, active_name,
  log_max_catalog_files,
}
use comfyui_docker_helper.Storage.Rotation.{open_active, check_then}
use comfyui_docker_helper.Storage.Catalog.{
  Fits, Fresh, Distinct, Distinct-snoc, write_other, write_same,
}

-- Every file of the catalog holds its bytes of the stream, and their number and sizes are bounded.
pub record Catalogued (f : ℕ → ℕ) (s : RawLogStore) : Type 0 where
  pub fits : All (Fits f s.max_size s.acknowledged s.disk) s.spans
  pub distinct : Distinct s.spans
  pub few : length s.spans ≤ s.max_files
  pub some_files : 0 < s.max_files
  pub some_size : 0 < s.max_size

-- The active file, where one is open, ends at what is acknowledged.
pub record Valid (f : ℕ → ℕ) (s : RawLogStore) : Type 0 where
  pub catalogued : Catalogued f s
  pub active :
      s.is_open ≡ true
      → (before : List FileSpan) (active : FileSpan) → split_last s.spans ≡ some (before, active)
      → active.end ≡ s.acknowledged

-- A new file's inode is that of no file that there is.
unfoldable pub Allocates : RotateAnswers → Type 0
Allocates a = (spans : List FileSpan) → Fresh (a.inode spans) spans

-- A file that is not written keeps its bytes.
pub Fits-write :
    (f : ℕ → ℕ) (max_size acknowledged : ℕ) (disk : ℕ → List ℕ) (inode : ℕ) (content : List ℕ)
    (spans : List FileSpan)
    → Fresh inode spans
    → All (Fits f max_size acknowledged disk) spans
    → All (Fits f max_size acknowledged (write_file inode content disk)) spans
Fits-write f max_size acknowledged disk inode content [] fresh fits = tt
Fits-write f max_size acknowledged disk inode content (span ∷ spans) (differ, fresh) (fit, fits) = (
  record {
    ordered = fit.ordered;
    whole_file = fit.whole_file;
    content = write_other inode span.inode content disk differ ∙ fit.content;
    below = fit.below;
    small = fit.small;
  },
  Fits-write f max_size acknowledged disk inode content spans fresh fits,
)

pub shut_Valid : (f : ℕ → ℕ) (s : RawLogStore) → Catalogued f s → s.is_open ≡ false → Valid f s
shut_Valid f s c shut = record {
  catalogued = c;
  active = λ o before active l. absurd (cc (o, shut));
}

-- A new file joins the catalog.
opened-Valid :
    (f : ℕ → ℕ) (a : RotateAnswers) (s : RawLogStore)
    → Allocates a
    → Catalogued f s
    → length s.spans < s.max_files
    → Valid f (record s {
      spans =
          s.spans
          ++ record {
            name = active_name;
            inode = a.inode s.spans;
            start = s.acknowledged;
            end = s.acknowledged;
            offset = 0;
          }
            ∷ [];
      is_open = true;
      disk = write_file (a.inode s.spans) [] s.disk;
    })
unfolding Allocates
opened-Valid f a s allocates c room =
    let inode = a.inode s.spans in
    let new : FileSpan = record {
      name = active_name;
      inode = inode;
      start = s.acknowledged;
      end = s.acknowledged;
      offset = 0;
    } in
    let nothing : s.acknowledged - s.acknowledged ≡ 0 = omega arith in
    record {
      catalogued = record {
        fits =
            All-append (Fits f s.max_size s.acknowledged (write_file inode [] s.disk)) s.spans
              (new ∷ [])
              (Fits-write f s.max_size s.acknowledged s.disk inode [] s.spans (allocates s.spans)
                c.fits)
              (
                record {
                  ordered = omega arith;
                  whole_file = refl;
                  content = write_same inode [] s.disk ∙ sym (ap (window f s.acknowledged) nothing);
                  below = omega arith;
                  small = omega arith;
                },
                tt,
              );
        distinct = Distinct-snoc s.spans new c.distinct (allocates s.spans);
        few = omega (arith, length-append {0} s.spans (new ∷ []));
        some_files = c.some_files;
        some_size = c.some_size;
      };
      active = λ o before active l. last_new before active l;
    }
  where
    last_new :
        (before : List FileSpan) (active : FileSpan)
        → split_last (
            s.spans
            ++ record {
              name = active_name;
              inode = a.inode s.spans;
              start = s.acknowledged;
              end = s.acknowledged;
              offset = 0;
            }
              ∷ [])
          ≡ some (before, active)
        → active.end ≡ s.acknowledged
    last_new before active l =
        let new : FileSpan = record {
          name = active_name;
          inode = a.inode s.spans;
          start = s.acknowledged;
          end = s.acknowledged;
          offset = 0;
        } in
        let same : active ≡ new = cc (l, split_last-snoc s.spans new) in
        ap (λ (x : FileSpan). x.end) same

-- What a state keeps, whichever way a check or a test goes.
pub check_then-Keeps :
    (P : RawLogStore → Type 0) (c : Check) (s : RawLogStore) (next : Ended × RawLogStore)
    → P s
    → P next.1
    → P (check_then c s next).1
check_then-Keeps P none s next v w = w
check_then-Keeps P (some t) s next v w = v

pub if-Keeps {ℓ} :
    {A : Type ℓ} (P : RawLogStore → Type 0) (b : Bool) (x y : A × RawLogStore)
    → P x.1
    → P y.1
    → P (if b then x else y).1
if-Keeps P true x y v w = v
if-Keeps P false x y v w = w

pub open_active-Valid :
    (f : ℕ → ℕ) (a : RotateAnswers) (s : RawLogStore)
    → Allocates a
    → Catalogued f s
    → length s.spans < s.max_files
    → s.is_open ≡ false
    → Valid f (open_active a s).1
unfolding open_active
open_active-Valid f a s allocates c room shut =
    let v = shut_Valid f s c shut in
    check_then-Keeps (Valid f) a.anchor_again s _ v (
      if-Keeps (Valid f) (leb log_max_catalog_files (length s.spans)) _ _ v
        (check_then-Keeps (Valid f) a.opened s _ v (opened-Valid f a s allocates c room)))
