-- ===== src/Splendor/Replies.antt =====
-- What is proved of a move of src/Splendor.hpp: a relation between its answer and its new state.
use unopp_server.Splendor.Defs.{Splendor}
use unopp_server.Prelude.{◌≡◌, refl, Bool, true, false, if◌then◌else◌}

pub data Replies {ℓ} (R : Bool → Splendor → Type ℓ) : Bool × Splendor → Type ℓ where
  replies : {b : Bool} {g : Splendor} → R b g → Replies R (b, g)

pub of_Replies {ℓ} : {R : Bool → Splendor → Type ℓ} {r : Bool × Splendor} → Replies R r → R r.0 r.1
of_Replies (replies h) = h

pub Replies-if {ℓ} :
    {R : Bool → Splendor → Type ℓ} (b : Bool) {x y : Bool × Splendor}
    → (b ≡ true → Replies R x)
    → (b ≡ false → Replies R y)
    → Replies R (if b then x else y)
Replies-if true h k = h refl
Replies-if false h k = k refl
