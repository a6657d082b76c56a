-- ===== src/Decimal/Tests.antt =====
-- Runs of the decimal operations that Python's interpreter can be asked to repeat.
use aero_bot.Prelude.{◌≡◌, refl, true}
use aero_bot.Prelude.Int.{pos, negsuc}
use aero_bot.Decimal.{whole, literal, sub, div, lt}
use aero_bot.Decimal.Root.{sqrt, ceiling, quantize_floor}

third : div 28 (whole 1) (whole 3) ≡ literal 3333333333333333333333333333 28
unfolding div
third = refl

two_thirds : div 28 (whole 2) (whole 3) ≡ literal 6666666666666666666666666667 28
unfolding div
two_thirds = refl

exact_quotient : div 28 (whole 10) (whole 4) ≡ literal 25 1
unfolding div
exact_quotient = refl

negative_difference :
    sub 28 (literal 15 1) (whole 2) ≡ record { coefficient = negsuc 4; exponent = negsuc 0 }
unfolding sub
negative_difference = refl

root_two : sqrt 28 (whole 2) ≡ literal 1414213562373095048801688724 27
unfolding sqrt
root_two = refl

root_exact : sqrt 60 (literal 225 2) ≡ literal 15 1
unfolding sqrt
root_exact = refl

root_sixty :
    sqrt 60 (whole 3) ≡ literal 173205080756887729352744634150587236694280525381038062805581 59
unfolding sqrt
root_sixty = refl

ceiling_up : ceiling (literal 2001 3) ≡ pos 3
unfolding ceiling
ceiling_up = refl

floor_micro : quantize_floor 6 (literal 123456789 8) ≡ literal 1234567 6
unfolding quantize_floor
floor_micro = refl

compare_mixed : lt (literal 15 1) (whole 2) ≡ true
unfolding lt
compare_mixed = refl
