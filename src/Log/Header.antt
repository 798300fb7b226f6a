-- ===== src/Log/Header.antt =====
-- log.c: the header block, written and read.
use spring18cs.Base.{ℕ, ◌≡◌, ◌<◌, ◌≤◌, refl, ap, List, [], ◌∷◌, length, arith}
use spring18cs.Log.{overlay, take_words, encode, decode, Block}

take_words-overlay :
    (lh ws : List ℕ) → length lh ≤ length ws → take_words (length lh) (overlay lh ws) ≡ lh
unfolding take_words overlay
take_words-overlay [] ws h = refl
take_words-overlay (b ∷ bs) [] h = absurd (omega arith)
take_words-overlay (b ∷ bs) (w ∷ ws) h = ap (◌∷◌ b) (take_words-overlay bs ws (omega arith))

-- A header that fits into its block comes back from it.
pub decode-encode :
    (lh : List ℕ) (block : Block) → length lh < length block → decode (encode lh block) ≡ lh
decode-encode lh [] h = absurd (omega arith)
decode-encode lh (w ∷ ws) h = take_words-overlay lh ws (omega arith)

-- The empty header comes back from any block.
pub decode-encode_none : (block : Block) → decode (encode [] block) ≡ []
unfolding take_words
decode-encode_none [] = refl
decode-encode_none (w ∷ ws) = refl
