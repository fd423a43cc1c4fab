-- ===== src/Fs/Bitmap/Search.antt =====
-- What the loop over the words of a block finds, and which blocks the loop over the blocks visits.
use minix4rt.Base.{
  ℕ, zero, suc, ◌+◌, ◌*◌, ◌≤◌, ◌<◌, ◌≡◌, refl, ap, sym, ◌∙◌, subst, ◌⊎◌, inl, inr, Bool, true,
  false, ◌&&◌, Option, none, some, ltb, leb, ◌==◌, if◌then◌else◌, if_true, if_false, Bool-cases,
  ==_iff, arith,
}
use minix4rt.Fs.Bitmap.{
  Chunk, Found, all_set, first_clear, conv2, swapped, found_at, word_loop, word_or,
}

-- All bits are set in a chunk, in either order of the bytes.
all_set-bit : (n i : ℕ) (w : Chunk) (j : ℕ) → all_set n i w ≡ true → i ≤ j → j < i + n → w j ≡ true
unfolding all_set
all_set-bit zero i w j h le lt = absurd (omega arith)
all_set-bit (suc n) i w j h le lt = elim (Bool-cases (j == i)) [
  | inl e ↦ (let same : j ≡ i = ground arith in ap w same ∙ ground arith)
  | inr e ↦ all_set-bit n (suc i) w j (ground arith) (ground arith) (omega arith)
]

pub full_bit :
    (native : Bool) (w : Chunk) (i : ℕ) → all_set 16 0 w ≡ true → i < 16 → conv2 native w i ≡ true
unfolding conv2
full_bit true w i h lt = (let set = all_set-bit 16 0 w i h (omega arith) lt in ground arith)
full_bit false w i h lt =
    let set = all_set-bit 16 0 w (swapped i) h (omega arith) (ground arith) in ground arith

-- The bits before the first one that is clear are set, and it is clear.
first_clear-before : (n i : ℕ) (k : Chunk) (j : ℕ) → i ≤ j → j < first_clear n i k → k j ≡ true
unfolding first_clear
first_clear-before zero i k j le lt = absurd (omega arith)
first_clear-before (suc n) i k j le lt = elim (Bool-cases (k i)) [
  | inl e ↦ elim (Bool-cases (j == i)) [
    | inl s ↦ (let same : j ≡ i = ground arith in ap k same ∙ e)
    | inr s ↦ first_clear-before n (suc i) k j (ground arith) (ground arith)
  ]
  | inr e ↦ absurd (ground arith)
]

first_clear-clear :
    (n i : ℕ) (k : Chunk) → first_clear n i k < i + n → k (first_clear n i k) ≡ false
unfolding first_clear
first_clear-clear zero i k lt = absurd (omega arith)
first_clear-clear (suc n) i k lt = elim (Bool-cases (k i)) [
  | inl e ↦
      let step : first_clear (suc n) i k ≡ first_clear n (suc i) k = if_true _ i e in
      ap k step ∙ first_clear-clear n (suc i) k (omega arith)
  | inr e ↦ ap k (if_false (first_clear n (suc i) k) i e) ∙ e
]

bits-all_set :
    (n i : ℕ) (w : Chunk) → ((j : ℕ) → i ≤ j → j < i + n → w j ≡ true) → all_set n i w ≡ true
unfolding all_set
bits-all_set zero i w h = refl
bits-all_set (suc n) i w h =
    let first = h i (omega arith) (omega arith) in
    let rest = bits-all_set n (suc i) w (λ j a b. h j (omega arith) (omega arith)) in ground arith

bit-conv2 :
    (native : Bool) (w : Chunk) (j : ℕ)
    → j < 16
    → conv2 native w (if native then j else swapped j) ≡ w j
unfolding conv2
bit-conv2 true w j h = ground arith
bit-conv2 false w j h =
    let back : swapped (swapped j) ≡ j = ground arith in
    let small : ltb (swapped j) 16 ≡ true = ground arith in
    ap (λ b. b && w (swapped (swapped j))) small ∙ ap w back

-- A chunk with a clear bit: the search stops within it.
pub first_clear-in :
    (native : Bool) (w : Chunk) → all_set 16 0 w ≡ false → first_clear 16 0 (conv2 native w) < 16
first_clear-in native w h = elim (Bool-cases (ltb (first_clear 16 0 (conv2 native w)) 16)) [
  | inl e ↦ ground arith
  | inr e ↦ absurd (
      let full = bits-all_set 16 0 w (λ j _ b.
        sym (bit-conv2 native w j b)
        ∙ first_clear-before 16 0 (conv2 native w) (if native then j else swapped j) (omega arith)
            (ground arith)) in
      cc)
]

-- A free bit of a block: it is clear and within the map.
pub record IsFree (native : Bool) (limit : ℕ) (words : ℕ → Chunk) (block : ℕ) (f : Found)
    : Type 0 where
  pub in_block : f.word < 512
  pub in_word : f.bit < 16
  pub numbered : f.number ≡ block * 8192 + f.word * 16 + f.bit
  pub within : f.number < limit
  pub clear : conv2 native (words f.word) f.bit ≡ false

word_or-cases :
    (limit : ℕ) (full : Bool) (f : Found) (rest o : Option Found)
    → word_or limit full f rest ≡ o
    → ((full ≡ true) × (rest ≡ o))
      ⊎ ((full ≡ false) × (limit ≤ f.number) × (o ≡ none))
      ⊎ ((full ≡ false) × (f.number < limit) × (some f ≡ o))
unfolding word_or
word_or-cases limit true f rest o e = inl (refl, e)
word_or-cases limit false f rest o e = elim (Bool-cases (leb limit f.number)) [
  | inl h ↦ inr (inl (refl, ground arith, sym e ∙ if_true none (some f) h))
  | inr h ↦ inr (inr (refl, ground arith, sym (if_false none (some f) h) ∙ e))
]

word_loop-suc :
    (native : Bool) (limit : ℕ) (words : ℕ → Chunk) (block n word : ℕ)
    → word_loop native limit words block (suc n) word
      ≡ word_or limit
          (all_set 16 0 (words word))
          (found_at block word (first_clear 16 0 (conv2 native (words word))))
          (word_loop native limit words block n (suc word))
unfolding word_loop
word_loop-suc native limit words block n word = refl

word_loop-zero :
    (native : Bool) (limit : ℕ) (words : ℕ → Chunk) (block word : ℕ)
    → word_loop native limit words block zero word ≡ none
unfolding word_loop
word_loop-zero native limit words block word = refl

found-IsFree :
    (native : Bool) (limit : ℕ) (words : ℕ → Chunk) (block word i : ℕ)
    → word < 512
    → i < 16
    → block * 8192 + word * 16 + i < limit
    → conv2 native (words word) i ≡ false
    → IsFree native limit words block (found_at block word i)
found-IsFree native limit words block word i a b c d = record {
  in_block = a;
  in_word = b;
  numbered = refl;
  within = c;
  clear = d;
}

pub word_loop-IsFree :
    (native : Bool) (limit : ℕ) (words : ℕ → Chunk) (block n word : ℕ) (f : Found)
    → word + n ≤ 512
    → word_loop native limit words block n word ≡ some f
    → IsFree native limit words block f
word_loop-IsFree native limit words block zero word f h e =
    absurd (let start = word_loop-zero native limit words block word in cc)
word_loop-IsFree native limit words block (suc n) word f h e =
    let k = conv2 native (words word) in
    let b = first_clear 16 0 k in
    elim (word_or-cases limit (all_set 16 0 (words word)) (found_at block word b)
      (word_loop native limit words block n (suc word)) (some f)
      (sym (word_loop-suc native limit words block n word) ∙ e)) [
        | inl (_, later) ↦
            word_loop-IsFree native limit words block n (suc word) f (omega arith) later
        | inr (inl (_, _, wrong)) ↦ absurd cc
        | inr (inr (free, within, same)) ↦
            let small = first_clear-in native (words word) free in
            subst (IsFree native limit words block) (let s : found_at block word b ≡ f = cc in s) (
              found-IsFree native limit words block word b (omega arith) small within
                (first_clear-clear 16 0 k small))
      ]

-- Where a block has none, all its bits within the map are set, from the first word on.
pub word_loop-full :
    (native : Bool) (limit : ℕ) (words : ℕ → Chunk) (block n word u i : ℕ)
    → word_loop native limit words block n word ≡ none
    → word ≤ u
    → u < word + n
    → i < 16
    → block * 8192 + u * 16 + i < limit
    → conv2 native (words u) i ≡ true
word_loop-full native limit words block zero word u i e le lt hi h = absurd (omega arith)
word_loop-full native limit words block (suc n) word u i e le lt hi h =
    let k = conv2 native (words word) in
    let b = first_clear 16 0 k in
    let here : u ≡ word → k i ≡ true → conv2 native (words u) i ≡ true =
      λ s v. ap (λ x. conv2 native (words x) i) s ∙ v in
    elim (word_or-cases limit (all_set 16 0 (words word)) (found_at block word b)
      (word_loop native limit words block n (suc word)) none
      (sym (word_loop-suc native limit words block n word) ∙ e)) [
        | inl (set, later) ↦ elim (Bool-cases (u == word)) [
          | inl s ↦ here ((==_iff u word).0 s) (full_bit native (words word) i set hi)
          | inr s ↦
              word_loop-full native limit words block n (suc word) u i later (ground arith)
                (omega arith) hi h
        ]
        | inr (inl (free, beyond, _)) ↦
            let small : b < 16 = first_clear-in native (words word) free in
            let before : i < b = omega arith in
            here (omega arith) (first_clear-before 16 0 k i (omega arith) before)
        | inr (inr (_, _, wrong)) ↦ absurd cc
      ]
