-- ===== src/Msger/Keys.antt =====
-- src/xnet/xmsger.c: the order of the channels in the tree of peers, and what a channel's key is.
use wenas.Base.{ℕ, ◌^◌, ◌≡◌, refl, [], ◌∷◌, ok, All, IsU64, arith}
use wenas.Uuid.Order.{sign, value, sign_word}
use wenas.Msger.Loop.{unicid_from, unicid_comp}

-- `unicid_comp` orders the channels by the numbers of 192 bits that their three words of 64 bits are,
-- the first word the highest.
pub unicid_comp-sign :
    (a b c a' b' c' : ℕ)
    → All IsU64 (a ∷ b ∷ c ∷ [])
    → All IsU64 (a' ∷ b' ∷ c' ∷ [])
    → unicid_comp (a ∷ b ∷ c ∷ []) (a' ∷ b' ∷ c' ∷ [])
      ≡ ok (sign (value (a ∷ b ∷ c ∷ [])) (value (a' ∷ b' ∷ c' ∷ [])))
unfolding unicid_comp unicid_from
unicid_comp-sign a b c a' b' c' h k =
    sign_word (2 ^ 128) a a' (value (b ∷ c ∷ [])) (value (b' ∷ c' ∷ [])) (omega arith) (omega arith)
      (sign_word (2 ^ 64) b b' (value (c ∷ [])) (value (c' ∷ [])) (omega arith) (omega arith)
        (sign_word 1 c c' 0 0 (omega arith) (omega arith) refl))
