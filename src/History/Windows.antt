-- ===== src/History/Windows.antt =====
-- Runs of bytes of a stream, which the blocks of the memory history hold
-- (src/comfyui_docker_helper/container/runtime/log_history.py).
use comfyui_docker_helper.Prelude.{
  ℕ, zero, suc, ◌+◌, ◌-◌, ◌≤◌, ◌<◌, min, List, [], ◌∷◌, ◌++◌, length, take, drop, arith, ◌≡◌, refl,
  ap, ◌∙◌,
}

-- The n bytes of the stream from the offset a on.
abbrev pub window : (ℕ → ℕ) → ℕ → ℕ → List ℕ
window f a zero = []
window f a (suc n) = f a ∷ window f (a + 1) n

pub window_at : (f : ℕ → ℕ) (a b m n : ℕ) → a ≡ b → m ≡ n → window f a m ≡ window f b n
window_at f a b m n e d = cc

pub length-window : (f : ℕ → ℕ) (a n : ℕ) → length (window f a n) ≡ n
length-window f a zero = refl
length-window f a (suc n) = omega (arith, length-window f (a + 1) n)

pub window-append :
    (f : ℕ → ℕ) (a m b n k : ℕ)
    → a + m ≡ b
    → m + n ≡ k
    → window f a m ++ window f b n ≡ window f a k
window-append f a zero b n k e d = window_at f b a n k (omega arith) (omega arith)
window-append f a (suc m) b n zero e d = absurd (omega arith)
window-append f a (suc m) b n (suc k) e d =
    ap (λ r. f a ∷ r) (window-append f (a + 1) m b n k (omega arith) (omega arith))

pub drop-window :
    (f : ℕ → ℕ) (k a n b m : ℕ)
    → a + k ≡ b
    → n - k ≡ m
    → k ≤ n
    → drop k (window f a n) ≡ window f b m
drop-window f zero a n b m e d le = window_at f a b n m (omega arith) (omega arith)
drop-window f (suc k) a zero b m e d le = absurd (omega arith)
drop-window f (suc k) a (suc n) b m e d le =
    drop-window f k (a + 1) n b m (omega arith) (omega arith) (omega arith)

pub take-window : (f : ℕ → ℕ) (k a n : ℕ) → k ≤ n → take k (window f a n) ≡ window f a k
take-window f zero a n le = refl
take-window f (suc k) a zero le = absurd (omega arith)
take-window f (suc k) a (suc n) le = ap (λ r. f a ∷ r) (take-window f k (a + 1) n (omega arith))

-- A run depends on its own bytes only.
pub window_ext :
    (f g : ℕ → ℕ) (a n : ℕ)
    → ((i : ℕ) → a ≤ i → i < a + n → f i ≡ g i)
    → window f a n ≡ window g a n
window_ext f g a zero same = refl
window_ext f g a (suc n) same = cc (
  same a (omega arith) (omega arith),
  window_ext f g (a + 1) n (λ i lo hi. same i (omega arith) (omega arith)),
)

pub take-window-min : (f : ℕ → ℕ) (k a n : ℕ) → take k (window f a n) ≡ window f a (min k n)
take-window-min f zero a n = window_at f a a 0 (min 0 n) refl (omega arith)
take-window-min f (suc k) a zero = window_at f a a 0 (min (suc k) 0) refl (omega arith)
take-window-min f (suc k) a (suc n) =
    ap (λ r. f a ∷ r) (take-window-min f k (a + 1) n)
    ∙ window_at f a a (suc (min k n)) (min (suc k) (suc n)) refl (omega arith)
