-- ===== src/Preview/Share/Message.antt =====
-- The signed text of a shared preview, split at its colons.
use taha_mohammadi_platform.Prelude.{ℕ, String, some, [], ◌∷◌, ◌<>◌, ◌≡◌, refl, sym, ap, ◌∙◌, true}
use taha_mohammadi_platform.Prelude.Split.{split, lacks, split-lacks, coloned}
use taha_mohammadi_platform.Prelude.Decimal.{show_nat}
use taha_mohammadi_platform.Prelude.Decimal.RoundTrip.{
  decimal_from, decimal_from-show_nat, lacks-show_nat,
}
use taha_mohammadi_platform.Preview.Share.{share_message}

pub show_nat_injective : (m n : ℕ) → show_nat m ≡ show_nat n → m ≡ n
show_nat_injective m n h =
    let e : some m ≡ some n =
      sym (decimal_from-show_nat m) ∙ ap (decimal_from 0) h ∙ decimal_from-show_nat n in
    cc e

preview_lacks : lacks b':' "preview" ≡ true
unfolding lacks
preview_lacks = refl

-- The fields of a shared preview's signed text.
pub split-share_message :
    (kind : String) (pk exp : ℕ)
    → lacks b':' kind ≡ true
    → split b':' (share_message kind pk exp) ≡ "preview" ∷ kind ∷ show_nat pk ∷ show_nat exp ∷ []
unfolding share_message
split-share_message kind pk exp free =
    rw
      (
        coloned "preview" (kind <> (":" <> (show_nat pk <> (":" <> show_nat exp)))) preview_lacks,
        coloned kind (show_nat pk <> (":" <> show_nat exp)) free,
        coloned (show_nat pk) (show_nat exp) (lacks-show_nat b':' pk refl),
        split-lacks b':' (show_nat exp) (lacks-show_nat b':' exp refl),
      )
      refl

-- Two shared previews with the same signed text are the same: no kind, key or expiry can be swapped
-- under a signature. The kinds have no colon.
pub share_message_injective :
    (kind kind' : String) (pk pk' exp exp' : ℕ)
    → lacks b':' kind ≡ true
    → lacks b':' kind' ≡ true
    → share_message kind pk exp ≡ share_message kind' pk' exp'
    → (kind ≡ kind') × (pk ≡ pk') × (exp ≡ exp')
share_message_injective kind kind' pk pk' exp exp' free free' same =
    let parts : "preview" ∷ kind ∷ show_nat pk ∷ show_nat exp ∷ []
        ≡ "preview" ∷ kind' ∷ show_nat pk' ∷ show_nat exp' ∷ [] =
      sym (split-share_message kind pk exp free)
      ∙ ap (split b':') same
      ∙ split-share_message kind' pk' exp' free' in
    (cc parts, show_nat_injective pk pk' (cc parts), show_nat_injective exp exp' (cc parts))
