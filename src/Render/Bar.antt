-- ===== src/Render/Bar.antt =====
-- gateway/renderer_helpers.go: the length of the progress bar.
use Prim.Native.String.{count}
use text.Mathlib.TextLemmas.{length-append}
use agentfactory_gateway.Common.{ℕ, String, zero, suc, ◌-◌, ◌≤◌, ◌≡◌, refl, false, arith}
use agentfactory_gateway.Common.Int.{pos, sub_from}
use agentfactory_gateway.Common.Text.{repeat}
use agentfactory_gateway.Common.Float.{Float, IsLawful}
use agentfactory_gateway.Render.Helpers.{progress_width, clamp, filled, render_progress_bar}

count-repeat : (s : String) (n : ℕ) → count s ≡ 1 → count (repeat s (pos n)) ≡ n
unfolding repeat
count-repeat s zero h = refl
count-repeat s (suc n) h = omega (arith, length-append s (repeat s (pos n)), count-repeat s n h)

module _ (F : Float) (L : IsLawful F) where
  -- The clamped value lies in the unit interval.
  clamp_bounds :
      (x : F.Carrier)
      → (F.lt (clamp F x) (F.of_nat 0) ≡ false) × (F.lt (F.of_nat 1) (clamp F x) ≡ false)
  unfolding clamp
  clamp_bounds x = ground (arith, L.zero_least, L.lt_irrefl (F.of_nat 0), L.lt_irrefl (F.of_nat 1))

  -- For every number, the count that is given to strings.Repeat for the full characters is some k
  -- from 0 to 10, that for the empty characters is 10 - k, so that neither call panics, and the bar
  -- has ten characters.
  pub render_progress_bar_width :
      (x : F.Carrier)
      → (k : ℕ) × (filled F x ≡ pos k)
        × (k ≤ progress_width)
        × (sub_from progress_width (filled F x) ≡ pos (progress_width - k))
        × (count (render_progress_bar F x) ≡ progress_width)
  unfolding filled render_progress_bar
  render_progress_bar_width x =
      let (low, high) = clamp_bounds x in
      let (k, e, le) = L.trunc-mul (clamp F x) progress_width low high in
      (
        k,
        e,
        le,
        ground arith,
        rw e (
            ground (
              arith,
              length-append (repeat "█" (pos k)) (repeat "░" (pos (10 - k))),
              count-repeat "█" k refl,
              count-repeat "░" (10 - k) refl,
            )),
      )
