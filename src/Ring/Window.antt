-- ===== src/Ring/Window.antt =====
-- The tasks that a run of indices of the ring holds, oldest first, and how writes change them.
use mathlib.Core.List.{append_assoc, append-nil}
use galay_kernel.Prelude.{
  ℕ, zero, suc, ◌+◌, ◌-◌, ◌%◌, ◌≤◌, ◌<◌, ◌≡◌, refl, subst, sym, ap, ◌∙◌, ◌≢◌, Option, some, List,
  [], ◌∷◌, ◌++◌, arith, inl, inr, Option-cases, length, length-append, update, option_list,
}

abbrev pub window : (ℕ → Option ℕ) → ℕ → ℕ → List ℕ
window slots h zero = []
window slots h (suc n) = option_list (slots (h % 256)) ++ window slots (suc h) n

pub length-window-le : (slots : ℕ → Option ℕ) (h n : ℕ) → length (window slots h n) ≤ n
length-window-le slots h zero = omega arith
length-window-le slots h (suc n) = ground (arith, length-window-le slots (suc h) n)

pub window-snoc :
    (slots : ℕ → Option ℕ) (h n : ℕ)
    → window slots h (suc n) ≡ window slots h n ++ option_list (slots ((h + n) % 256))
window-snoc slots h zero = let e : h + 0 ≡ h = omega arith in rw (e, append-nil) refl
window-snoc slots h (suc n) =
    let e : suc h + n ≡ h + suc n = omega arith in
    ap (λ t. option_list (slots (h % 256)) ++ t)
      (window-snoc slots (suc h) n
        ∙ ap (λ k. window slots (suc h) n ++ option_list (slots (k % 256))) e)
    ∙ sym (append_assoc (option_list (slots (h % 256))) _ _)

-- A write at an index behind the run, less than one round away from its start, is not seen.
pub window-update_end :
    (slots : ℕ → Option ℕ) (v : Option ℕ) (k h n : ℕ)
    → h + n ≤ k
    → k < h + 256
    → window (update slots (k % 256) v) h n ≡ window slots h n
window-update_end slots v k h zero le lt = refl
window-update_end slots v k h (suc n) le lt =
    let e : k % 256 ≢ h % 256 = omega arith in
    ground (arith, e, window-update_end slots v k (suc h) n (omega arith) (omega arith))

-- Nor is a write at an index before the run, less than one round away from its end.
pub window-update_start :
    (slots : ℕ → Option ℕ) (v : Option ℕ) (k h n : ℕ)
    → k < h
    → h + n ≤ k + 256
    → window (update slots (k % 256) v) h n ≡ window slots h n
window-update_start slots v k h zero lt le = refl
window-update_start slots v k h (suc n) lt le =
    let e : k % 256 ≢ h % 256 = omega arith in
    ground (arith, e, window-update_start slots v k (suc h) n (omega arith) (omega arith))

-- A full run, one longer than `n`, ends in a task.
pub last-full :
    (slots : ℕ → Option ℕ) (h n : ℕ)
    → length (window slots h (suc n)) ≡ suc n
    → (x : ℕ) × (slots ((h + n) % 256) ≡ some x) × (length (window slots h n) ≡ n)
last-full slots h n full = elim (Option-cases (slots ((h + n) % 256))) [
  | inl e ↦ absurd (ground (arith, measured, length-window-le slots h n))
  | inr (x, e) ↦ (x, e, ground (arith, measured))
]
  where
    measured : suc n ≡ length (window slots h n) + length (option_list (slots ((h + n) % 256)))
    measured =
        sym full
        ∙ ap length (window-snoc slots h n)
        ∙ length-append (window slots h n) (option_list (slots ((h + n) % 256)))

-- And it begins with one.
pub first-full :
    (slots : ℕ → Option ℕ) (h n : ℕ)
    → length (window slots h (suc n)) ≡ suc n
    → (x : ℕ) × (slots (h % 256) ≡ some x) × (length (window slots (suc h) n) ≡ n)
first-full slots h n full = elim (Option-cases (slots (h % 256))) [
  | inl e ↦ absurd (ground (arith, length-window-le slots (suc h) n))
  | inr (x, e) ↦ (x, e, ground arith)
]

-- A run from `h` to `t` with one more task behind it.
pub window-push :
    (slots : ℕ → Option ℕ) (task h t : ℕ)
    → h ≤ t
    → t < h + 256
    → window (update slots (t % 256) (some task)) h (t + 1 - h)
      ≡ window slots h (t - h) ++ task ∷ []
window-push slots task h t le lt =
    let e : t + 1 - h ≡ suc (t - h) = omega arith in
    let back : h + (t - h) ≡ t = omega arith in
    let hit : update slots (t % 256) (some task) (t % 256) ≡ some task = ground arith in
    rw (e, window-snoc _ h (t - h), back, hit)
      (rw (window-update_end slots (some task) t h (t - h) (omega arith) lt) refl)

pub split_last :
    (slots : ℕ → Option ℕ) (h m n : ℕ)
    → m ≡ suc n
    → length (window slots h m) ≡ m
    → (x : ℕ) × (slots ((h + n) % 256) ≡ some x)
      × (window slots h m ≡ window slots h n ++ x ∷ [])
      × (length (window slots h n) ≡ n)
split_last slots h m n e full =
    let (x, hx, len) = last-full slots h n (subst (λ k. length (window slots h k) ≡ k) e full) in
    (
      x,
      hx,
      ap (window slots h) e
          ∙ window-snoc slots h n
          ∙ ap (λ o. window slots h n ++ option_list o) hx,
      len,
    )

pub split_first :
    (slots : ℕ → Option ℕ) (h m n : ℕ)
    → m ≡ suc n
    → length (window slots h m) ≡ m
    → (x : ℕ) × (slots (h % 256) ≡ some x)
      × (window slots h m ≡ x ∷ window slots (suc h) n)
      × (length (window slots (suc h) n) ≡ n)
split_first slots h m n e full =
    let (x, hx, len) = first-full slots h n (subst (λ k. length (window slots h k) ≡ k) e full) in
    (x, hx, ap (window slots h) e ∙ ap (λ o. option_list o ++ window slots (suc h) n) hx, len)
