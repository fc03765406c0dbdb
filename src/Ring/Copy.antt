-- ===== src/Ring/Copy.antt =====
-- What the copies of `memcpy` leave in the destination, and when they stay inside the buffers.
use real_time_library.Base.{
  ℕ, ◌+◌, ◌≤◌, ◌<◌, ◌≡◌, refl, ap, ◌∙◌, ◌⊎◌, none, some, List, [], ◌∷◌, ◌++◌, arith, length,
  get_elem?, take, drop, list_ext, get_elem?-drop, length-take, length-drop, le→leb,
}
use real_time_library.Ring.{overlay, memcpy}

overlay-append :
    (dst src : List ℕ) → length src ≤ length dst → overlay dst src ≡ src ++ drop (length src) dst
overlay-append dst [] h = refl
overlay-append [] (x ∷ src) h = absurd (omega arith)
overlay-append (d ∷ dst) (x ∷ src) h = ap (λ l. x ∷ l) (overlay-append dst src (omega arith))

pub drop-drop : (m n : ℕ) (xs : List ℕ) → drop m (drop n xs) ≡ drop (n + m) xs
drop-drop m n xs = list_ext _ _ λ i. simp get_elem?-drop (ap (λ k. get_elem? xs k) (omega arith))

-- A copy inside both buffers replaces `n` bytes and keeps the others.
pub memcpy_inside :
    (dst : List ℕ) (at : ℕ) (src : List ℕ) (from n : ℕ)
    → at + n ≤ length dst
    → from + n ≤ length src
    → memcpy dst at src from n ≡ some (take at dst ++ (take n (drop from src) ++ drop (at + n) dst))
unfolding memcpy
memcpy_inside dst at src from n h k =
    let len : length (take n (drop from src)) ≡ n =
      omega (arith, length-take n (drop from src), length-drop from src) in
    rw (le→leb _ _ h, le→leb _ _ k)
      (ap (λ l. some (take at dst ++ l))
        (overlay-append (drop at dst) (take n (drop from src)) (omega (arith, length-drop at dst))
          ∙ ap (λ l. take n (drop from src) ++ l)
              (ap (λ m. drop m (drop at dst)) len ∙ drop-drop n at dst)))

-- A copy that leaves either buffer is a fault.
pub memcpy_outside :
    (dst : List ℕ) (at : ℕ) (src : List ℕ) (from n : ℕ)
    → (length dst < at + n) ⊎ (length src < from + n)
    → memcpy dst at src from n ≡ none
unfolding memcpy
memcpy_outside dst at src from n h = ground arith
