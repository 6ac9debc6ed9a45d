-- ===== src/Cmd/Hash.antt =====
-- `time33_hash_32` of src/redis_cmd.cpp: eight bytes a round, the rest by a switch that falls through.
use librediscxx.Base.{
  ℕ, zero, suc, ◌+◌, ◌-◌, ◌*◌, ◌%◌, ◌^◌, ◌<◌, ◌≡◌, refl, arith, [], ◌∷◌, ◌++◌, ◌∙◌, Bytes, ltb,
  lt→ltb, length, if◌then◌else◌, codes,
}

-- A `char` is signed: a byte from 128 on is added as byte - 256, modulo 2^32.
pub char_value : ℕ → ℕ
char_value c = if ltb c 128 then c else c + 2 ^ 32 - 256

-- `hash = ((hash << 5) + hash) + *str++`, in uint32_t.
step : ℕ → ℕ → ℕ
unfolding char_value
step hash c = (((hash * 32) % 2 ^ 32 + hash) % 2 ^ 32 + char_value c) % 2 ^ 32

-- `switch (length)`, each case falling through to the one below.
fall_through : ℕ → ℕ → Bytes → ℕ
fall_through zero hash s = hash
fall_through (suc n) hash [] = hash
fall_through (suc n) hash (c ∷ s) = fall_through n (step hash c) s

rounds : ℕ → Bytes → ℕ
unfolding fall_through
rounds h (a ∷ b ∷ c ∷ d ∷ e ∷ f ∷ g ∷ i ∷ s) =
    rounds (step (step (step (step (step (step (step (step h a) b) c) d) e) f) g) i) s
rounds h s = fall_through (length s) h s

unfoldable pub time33_hash_32 : Bytes → ℕ
unfolding rounds step
time33_hash_32 [] = 0
time33_hash_32 (c ∷ s) = rounds 5381 (c ∷ s)

-- Bernstein's hash with no wrap-around: the digits of the key in base 33, behind the seed.
abbrev pub times33 : ℕ → Bytes → ℕ
times33 h [] = h
times33 h (c ∷ s) = times33 (33 * h + char_value c) s

times33_cong :
    (a b : ℕ) (s : Bytes) → a % 2 ^ 32 ≡ b % 2 ^ 32 → times33 a s % 2 ^ 32 ≡ times33 b s % 2 ^ 32
times33_cong a b [] h = h
times33_cong a b (c ∷ s) h =
    times33_cong (33 * a + char_value c) (33 * b + char_value c) s (omega arith)

step-times33 : (h c : ℕ) → step h c % 2 ^ 32 ≡ (33 * h + char_value c) % 2 ^ 32
unfolding step
step-times33 h c = omega arith

step-lt : (h c : ℕ) → step h c < 2 ^ 32
unfolding step
step-lt h c = omega arith

fall_through-times33 :
    (h : ℕ) (s : Bytes) → h < 2 ^ 32 → fall_through (length s) h s ≡ times33 h s % 2 ^ 32
unfolding fall_through
fall_through-times33 h [] lt = omega arith
fall_through-times33 h (c ∷ s) lt =
    fall_through-times33 (step h c) s (step-lt h c)
    ∙ times33_cong (step h c) (33 * h + char_value c) s (step-times33 h c)

-- Eight steps of the round.
step8 : ℕ → Bytes → ℕ
step8 h [] = h
step8 h (c ∷ s) = step8 (step h c) s

step8-times33 : (h : ℕ) (s t : Bytes) → times33 (step8 h s) t % 2 ^ 32 ≡ times33 h (s ++ t) % 2 ^ 32
unfolding step8
step8-times33 h [] t = refl
step8-times33 h (c ∷ s) t =
    step8-times33 (step h c) s t
    ∙ times33_cong (step h c) (33 * h + char_value c) (s ++ t) (step-times33 h c)

rounds-times33 : (s : Bytes) (h : ℕ) → h < 2 ^ 32 → rounds h s ≡ times33 h s % 2 ^ 32
unfolding rounds
rounds-times33 (a ∷ b ∷ c ∷ d ∷ e ∷ f ∷ g ∷ i ∷ s) h lt =
    rounds-times33 s _ (step-lt _ i)
    ∙ unfold step8 in step8-times33 h (a ∷ b ∷ c ∷ d ∷ e ∷ f ∷ g ∷ i ∷ []) s
rounds-times33 s h lt = fall_through-times33 h s lt

-- The unrolled loop and its switch compute Bernstein's hash of every non-empty key, modulo 2^32, and
-- 0 for the empty key.
pub time33_hash_32-times33 :
    (key : Bytes)
    → time33_hash_32 key ≡ (if ltb 0 (length key) then times33 5381 key % 2 ^ 32 else 0)
unfolding time33_hash_32
time33_hash_32-times33 [] = refl
time33_hash_32-times33 (c ∷ s) =
    rw (lt→ltb 0 (length (c ∷ s)) (omega arith)) (rounds-times33 (c ∷ s) 5381 (omega arith))

hash_foo : time33_hash_32 (codes "foo") ≡ 193491849
unfolding time33_hash_32
hash_foo = refl
