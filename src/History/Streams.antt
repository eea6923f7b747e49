-- ===== src/History/Streams.antt =====
-- The stream that a list of published bytes is the beginning of
-- (src/comfyui_docker_helper/container/runtime/log_history.py).
use comfyui_docker_helper.Prelude.{
  ℕ, zero, suc, ◌+◌, ◌-◌, ◌≤◌, ◌<◌, List, [], ◌∷◌, ◌++◌, length, take, drop, Option, none, some,
  get_elem?, drop-append, length-append, arith, ◌≡◌, refl, sym, ap, ◌∙◌,
}
use comfyui_docker_helper.History.Windows.{window, window_at}

abbrev byte_or_zero : Option ℕ → ℕ
byte_or_zero none = 0
byte_or_zero (some b) = b

abbrev nth : List ℕ → ℕ → ℕ
nth xs i = byte_or_zero (get_elem? xs i)

-- The byte at an offset, where the first one stands at `base`.
pub byte_of : ℕ → List ℕ → ℕ → ℕ
byte_of base stream i = nth stream (i - base)

nth-append : (xs ys : List ℕ) (i : ℕ) → i < length xs → nth (xs ++ ys) i ≡ nth xs i
nth-append [] ys i lt = absurd (omega arith)
nth-append (x ∷ xs) ys zero lt = refl
nth-append (x ∷ xs) ys (suc i) lt = nth-append xs ys i (omega arith)

take_one :
    (xs : List ℕ) (k n : ℕ)
    → k < length xs
    → take (suc n) (drop k xs) ≡ nth xs k ∷ take n (drop (suc k) xs)
take_one [] k n lt = absurd (omega arith)
take_one (x ∷ xs) zero n lt = refl
take_one (x ∷ xs) (suc k) n lt = take_one xs k n (omega arith)

pub take-drop-window :
    (base : ℕ) (xs : List ℕ) (k n : ℕ)
    → k + n ≤ length xs
    → take n (drop k xs) ≡ window (byte_of base xs) (base + k) n
unfolding byte_of
take-drop-window base xs k zero le = refl
take-drop-window base xs k (suc n) le =
    let here : base + k - base ≡ k = omega arith in
    rw (take_one xs k n (omega arith), here)
      (ap (λ r. nth xs k ∷ r)
        (take-drop-window base xs (suc k) n (omega arith)
          ∙ window_at (byte_of base xs) (base + suc k) (base + k + 1) n n (omega arith) refl))

take_all : (xs : List ℕ) → take (length xs) xs ≡ xs
take_all [] = refl
take_all (x ∷ xs) = ap (λ r. x ∷ r) (take_all xs)

-- What is published stands behind what was.
pub published_window :
    (base : ℕ) (xs ys : List ℕ)
    → ys ≡ window (byte_of base (xs ++ ys)) (base + length xs) (length ys)
published_window base xs ys =
    sym (take_all ys)
    ∙ ap (take (length ys)) (sym (drop-append xs ys))
    ∙ take-drop-window base (xs ++ ys) (length xs) (length ys)
        (omega (arith, length-append {0} xs ys))

pub byte_of-append :
    (base : ℕ) (xs ys : List ℕ) (i : ℕ)
    → base ≤ i
    → i < base + length xs
    → byte_of base xs i ≡ byte_of base (xs ++ ys) i
unfolding byte_of
byte_of-append base xs ys i low high = sym (nth-append xs ys (i - base) (omega arith))
