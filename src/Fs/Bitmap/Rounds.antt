-- ===== src/Fs/Bitmap/Rounds.antt =====
-- The loop over the blocks of a bit map: which blocks it visits, and how it ends.
use minix4rt.Base.{
  ℕ, zero, suc, ◌+◌, ◌-◌, ◌≤◌, ◌<◌, ◌≡◌, refl, ap, ◌∙◌, ◌⊎◌, inl, inr, true, Option, none, some,
  ltb, leb, if_true, if_false, Bool-cases, Option-cases, arith,
}
use minix4rt.Fs.Bitmap.{
  Chunk, Found, Blocks, SuperBlock, MapKind, word_loop, next_block, no_bit, start_block, map_bits,
  bit_blocks, write_bit, taken_or, block_loop,
}
use minix4rt.Fs.Bitmap.Search.{IsFree, word_loop-IsFree}

-- The block that the loop over the blocks visits in round `d`.
pub visited : ℕ → ℕ → ℕ → ℕ
visited blocks zero block = block
visited blocks (suc d) block = visited blocks d (next_block blocks block)

visited-ahead : (blocks d block : ℕ) → block + d < blocks → visited blocks d block ≡ block + d
unfolding visited
visited-ahead blocks zero block h = omega arith
visited-ahead blocks (suc d) block h =
    ap (visited blocks d) (if_false 0 (suc block) (ground arith))
    ∙ visited-ahead blocks d (suc block) (omega arith)
    ∙ (let e : suc block + d ≡ block + suc d = omega arith in e)

visited-around :
    (blocks d block j : ℕ)
    → j < blocks
    → block < blocks
    → d ≡ (blocks - block) + j
    → visited blocks d block ≡ j
unfolding visited
visited-around blocks zero block j hj hb e = absurd (omega arith)
visited-around blocks (suc d) block j hj hb e = elim (Bool-cases (leb blocks (suc block))) [
  | inl last ↦
      ap (visited blocks d) (if_true 0 (suc block) last)
      ∙ visited-ahead blocks d 0 (ground arith)
      ∙ (let same : 0 + d ≡ j = ground arith in same)
  | inr more ↦
      ap (visited blocks d) (if_false 0 (suc block) more)
      ∙ visited-around blocks d (suc block) j hj (ground arith) (ground arith)
]

-- Every block is visited after the first round and within as many rounds as there are blocks.
pub visits :
    (blocks block j : ℕ)
    → j < blocks
    → block < blocks
    → (d : ℕ) × (d < blocks) × (visited blocks d (next_block blocks block) ≡ j)
unfolding visited
visits blocks block j hj hb = elim (Bool-cases (ltb block j)) [
  | inl h ↦ (
    j - suc block,
    ground arith,
    ap (visited blocks (j - suc block)) (if_false 0 (suc block) (ground arith))
        ∙ visited-ahead blocks (j - suc block) (suc block) (ground arith)
        ∙ (let e : suc block + (j - suc block) ≡ j = ground arith in e),
  )
  | inr h ↦ (
    (blocks - suc block) + j,
    ground arith,
    visited-around blocks (suc ((blocks - suc block) + j)) block j hj hb (omega arith),
  )
]

module _ (sp : SuperBlock) (map : MapKind) (m : Blocks) where
  -- The chunks of a block of the map.
  abbrev pub words_of : ℕ → ℕ → Chunk
  words_of j = m.b_bitmap (start_block sp map + j)

  abbrev pub search : ℕ → ℕ → Option Found
  search j word = word_loop sp.s_native (map_bits sp map) (words_of j) j (512 - word) word

  -- A free bit of some block is taken.
  abbrev pub Taken : ℕ × Blocks → Type 0
  Taken r =
      (j : ℕ) × (f : Found) × (j < bit_blocks sp map)
      × IsFree sp.s_native (map_bits sp map) (words_of j) j f
      × (r ≡ (f.number, write_bit sp map m j f.word f.bit true))

  -- No round finds one.
  abbrev pub Nothing : ℕ → ℕ → ℕ → ℕ × Blocks → Type 0
  Nothing n block word r =
      (r ≡ (no_bit, m))
      × (0 < n → search block word ≡ none)
      × ((d : ℕ)
          → suc d < n
          → search (visited (bit_blocks sp map) d (next_block (bit_blocks sp map) block)) 0 ≡ none)

  block_loop-step :
      (n block word : ℕ) (o : Option Found)
      → search block word ≡ o
      → block_loop sp map m (suc n) block word
        ≡ taken_or sp map m block o (block_loop sp map m n (next_block (bit_blocks sp map) block) 0)
  unfolding block_loop
  block_loop-step n block word o e =
      ap
        (λ x.
          taken_or sp map m block x
            (block_loop sp map m n (next_block (bit_blocks sp map) block) 0))
        e

  each_round :
      (n block : ℕ)
      → (0 < n → search block 0 ≡ none)
      → ((d : ℕ)
          → suc d < n
          → search (visited (bit_blocks sp map) d (next_block (bit_blocks sp map) block)) 0 ≡ none)
      → (d : ℕ) → suc d < suc n
      → search (visited (bit_blocks sp map) d block) 0 ≡ none
  unfolding visited
  each_round n block first later zero h = first (omega arith)
  each_round n block first later (suc d) h = later d (omega arith)

  pub block_loop-cases :
      (n block word : ℕ)
      → word ≤ 512
      → block < bit_blocks sp map
      → Taken (block_loop sp map m n block word)
        ⊎ Nothing n block word (block_loop sp map m n block word)
  unfolding block_loop taken_or
  block_loop-cases zero block word hw hb =
      inr (refl, λ h. absurd (omega arith), λ d h. absurd (omega arith))
  block_loop-cases (suc n) block word hw hb = elim (Option-cases (search block word)) [
    | inr (f, e) ↦ inl (
      block,
      f,
      hb,
      word_loop-IsFree sp.s_native (map_bits sp map) (words_of block) block (512 - word) word f
          (omega arith) e,
      block_loop-step n block word (some f) e,
    )
    | inl e ↦
        let next = next_block (bit_blocks sp map) block in
        let step = block_loop-step n block word none e in
        elim (block_loop-cases n next 0 (omega arith) (ground arith)) [
          | inl (j, f, a, b, c) ↦ inl (j, f, a, b, step ∙ c)
          | inr (same, first, rounds) ↦ inr (step ∙ same, λ _. e, each_round n next first rounds)
        ]
  ]
