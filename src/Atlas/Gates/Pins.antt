-- ===== src/Atlas/Gates/Pins.antt =====
-- The pins without a defect.
use taha_mohammadi_platform.Prelude.{
  suc, ◌*◌, ◌≤◌, Option, none, some, Bool, true, false, not, ◌&&◌, ◌||◌, ◌≡◌, ◌↔◌, refl, arith,
  if◌then◌else◌,
}
use taha_mohammadi_platform.Prelude.Decimal.{pos, negsuc}
use taha_mohammadi_platform.Prelude.Json.{Float, nan, infinite, finite, beyond, power_of_two}
use taha_mohammadi_platform.Atlas.Graph.{AtlasNode}
use taha_mohammadi_platform.Atlas.Gates.{is_some, off_scene, xor, pin_defect}

-- A finite number between -1000 and 1000.
abbrev pub InScene : Float → Type 0
InScene nan = ⊥
InScene infinite = ⊥
InScene (finite _ m (pos e)) = m * power_of_two e ≤ 1000
InScene (finite _ m (negsuc e)) = m ≤ 1000 * power_of_two (suc e)

abbrev pub InSceneIfSet : Option Float → Type 0
InSceneIfSet none = Unit
InSceneIfSet (some v) = InScene v

-- No pin; or x and y in the scene, and z too if it is set.
abbrev pub IsPinValid : Option Float → Option Float → Option Float → Type 0
IsPinValid none none none = Unit
IsPinValid (some x) (some y) z = InScene x × InScene y × InSceneIfSet z
IsPinValid _ _ _ = ⊥

off_scene-InScene : (v : Float) → (off_scene (some v) ≡ false) ↔ InScene v
unfolding beyond
off_scene-InScene nan = (λ h. cc h, λ h. absurd h)
off_scene-InScene infinite = (λ h. cc h, λ h. absurd h)
off_scene-InScene (finite s m (pos e)) = ground arith
off_scene-InScene (finite s m (negsuc e)) = ground arith

off_scene-InSceneIfSet : (v : Option Float) → (off_scene v ≡ false) ↔ InSceneIfSet v
off_scene-InSceneIfSet none = (λ _. tt, λ _. refl)
off_scene-InSceneIfSet (some v) = off_scene-InScene v

abbrev pub defect_of : Option Float → Option Float → Option Float → Bool
defect_of x y z =
    if xor (is_some x) (is_some y)
    then true
    else if not (is_some x) && is_some z
    then true
    else off_scene x || (off_scene y || off_scene z)

defect_of-IsPinValid : (x y z : Option Float) → (defect_of x y z ≡ false) ↔ IsPinValid x y z
defect_of-IsPinValid none none none = (λ _. tt, λ _. refl)
defect_of-IsPinValid none none (some z) = (λ h. cc h, λ h. absurd h)
defect_of-IsPinValid none (some y) z = (λ h. cc h, λ h. absurd h)
defect_of-IsPinValid (some x) none z = (λ h. cc h, λ h. absurd h)
defect_of-IsPinValid (some x) (some y) z =
    let (fx, bx) = off_scene-InScene x in
    let (fy, by) = off_scene-InScene y in
    let (fz, bz) = off_scene-InSceneIfSet z in
    (
      λ h. (fx (ground arith), fy (ground arith), fz (ground arith)),
      λ (hx, hy, hz). rw (bx hx, by hy, bz hz) refl,
    )

-- A node's pin has no defect exactly if it is not set at all, or if its x and y are set and each
-- coordinate that is set is a finite number between -1000 and 1000.
pub pin_defect-IsPinValid :
    (n : AtlasNode) → (pin_defect n ≡ false) ↔ IsPinValid n.pin_x n.pin_y n.pin_z
unfolding pin_defect
pin_defect-IsPinValid n = defect_of-IsPinValid n.pin_x n.pin_y n.pin_z
