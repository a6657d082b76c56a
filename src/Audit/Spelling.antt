-- ===== src/Audit/Spelling.antt =====
-- A spelling of JSON values for the runs of src/aero_bot/audit.py: each value behind its kind, each
-- string behind its length.
use aero_bot.Prelude.{Bool, true, false, [], ◌∷◌, ◌++◌, ◌≡◌, refl, ap, length, if◌then◌else◌}
use aero_bot.Prelude.Int.{pos, negsuc}
use aero_bot.Audit.Text.{Text}
use aero_bot.Audit.Json.{Json, Items, Fields}

abbrev sized : Text → Text → Text
sized text rest = length text ∷ text ++ rest

unfoldable mutual
  pub spell : Json → Text → Text
  spell Json.null rest = 0 ∷ rest
  spell (Json.boolean b) rest = 1 ∷ (if b then 1 else 0) ∷ rest
  spell (Json.integer (pos n)) rest = 2 ∷ n ∷ rest
  spell (Json.integer (negsuc n)) rest = 3 ∷ n ∷ rest
  spell (Json.float text) rest = 4 ∷ sized text rest
  spell (Json.string text) rest = 5 ∷ sized text rest
  spell (Json.array items) rest = 6 ∷ spell_items items rest
  spell (Json.object fields) rest = 7 ∷ spell_fields fields rest

  pub spell_items : Items → Text → Text
  spell_items Items.no_item rest = 0 ∷ rest
  spell_items (Items.item value items) rest = 1 ∷ spell value (spell_items items rest)

  pub spell_fields : Fields → Text → Text
  spell_fields Fields.no_field rest = 0 ∷ rest
  spell_fields (Fields.field name value fields) rest =
      1 ∷ sized name (spell value (spell_fields fields rest))

abbrev after_first : Text → Text
after_first [] = []
after_first (_ ∷ rest) = rest

bit-injective :
    (x y : Bool) (r s : Text)
    → (if x then 1 else 0) ∷ r ≡ (if y then 1 else 0) ∷ s
    → (x ≡ y) × (r ≡ s)
bit-injective true true r s e = (refl, cc)
bit-injective true false r s e = cc
bit-injective false true r s e = cc
bit-injective false false r s e = (refl, cc)

sized-injective : (x y r s : Text) → sized x r ≡ sized y s → (x ≡ y) × (r ≡ s)
sized-injective [] [] r s e = (refl, cc)
sized-injective [] (_ ∷ _) r s e = cc
sized-injective (_ ∷ _) [] r s e = cc
sized-injective (x ∷ xs) (y ∷ ys) r s e =
    let (tails, rests) = sized-injective xs ys r s cc in (cc, rests)

mutual
  unfolding spell spell_items spell_fields

  pub spell-injective : (j k : Json) (r s : Text) → spell j r ≡ spell k s → (j ≡ k) × (r ≡ s)
  spell-injective Json.null Json.null r s e = (cc, cc)
  spell-injective Json.null (Json.boolean _) r s e = cc
  spell-injective Json.null (Json.integer (pos _)) r s e = cc
  spell-injective Json.null (Json.integer (negsuc _)) r s e = cc
  spell-injective Json.null (Json.float _) r s e = cc
  spell-injective Json.null (Json.string _) r s e = cc
  spell-injective Json.null (Json.array _) r s e = cc
  spell-injective Json.null (Json.object _) r s e = cc
  spell-injective (Json.boolean _) Json.null r s e = cc
  spell-injective (Json.boolean x) (Json.boolean y) r s e =
      let (same, rests) = bit-injective x y r s (ap after_first e) in (ap Json.boolean same, rests)
  spell-injective (Json.boolean _) (Json.integer (pos _)) r s e = cc
  spell-injective (Json.boolean _) (Json.integer (negsuc _)) r s e = cc
  spell-injective (Json.boolean _) (Json.float _) r s e = cc
  spell-injective (Json.boolean _) (Json.string _) r s e = cc
  spell-injective (Json.boolean _) (Json.array _) r s e = cc
  spell-injective (Json.boolean _) (Json.object _) r s e = cc
  spell-injective (Json.integer (pos _)) Json.null r s e = cc
  spell-injective (Json.integer (pos _)) (Json.boolean _) r s e = cc
  spell-injective (Json.integer (pos x)) (Json.integer (pos y)) r s e = (cc, cc)
  spell-injective (Json.integer (pos _)) (Json.integer (negsuc _)) r s e = cc
  spell-injective (Json.integer (pos _)) (Json.float _) r s e = cc
  spell-injective (Json.integer (pos _)) (Json.string _) r s e = cc
  spell-injective (Json.integer (pos _)) (Json.array _) r s e = cc
  spell-injective (Json.integer (pos _)) (Json.object _) r s e = cc
  spell-injective (Json.integer (negsuc _)) Json.null r s e = cc
  spell-injective (Json.integer (negsuc _)) (Json.boolean _) r s e = cc
  spell-injective (Json.integer (negsuc _)) (Json.integer (pos _)) r s e = cc
  spell-injective (Json.integer (negsuc x)) (Json.integer (negsuc y)) r s e = (cc, cc)
  spell-injective (Json.integer (negsuc _)) (Json.float _) r s e = cc
  spell-injective (Json.integer (negsuc _)) (Json.string _) r s e = cc
  spell-injective (Json.integer (negsuc _)) (Json.array _) r s e = cc
  spell-injective (Json.integer (negsuc _)) (Json.object _) r s e = cc
  spell-injective (Json.float _) Json.null r s e = cc
  spell-injective (Json.float _) (Json.boolean _) r s e = cc
  spell-injective (Json.float _) (Json.integer (pos _)) r s e = cc
  spell-injective (Json.float _) (Json.integer (negsuc _)) r s e = cc
  spell-injective (Json.float x) (Json.float y) r s e =
      let (same, rests) = sized-injective x y r s (ap after_first e) in (ap Json.float same, rests)
  spell-injective (Json.float _) (Json.string _) r s e = cc
  spell-injective (Json.float _) (Json.array _) r s e = cc
  spell-injective (Json.float _) (Json.object _) r s e = cc
  spell-injective (Json.string _) Json.null r s e = cc
  spell-injective (Json.string _) (Json.boolean _) r s e = cc
  spell-injective (Json.string _) (Json.integer (pos _)) r s e = cc
  spell-injective (Json.string _) (Json.integer (negsuc _)) r s e = cc
  spell-injective (Json.string _) (Json.float _) r s e = cc
  spell-injective (Json.string x) (Json.string y) r s e =
      let (same, rests) = sized-injective x y r s (ap after_first e) in (ap Json.string same, rests)
  spell-injective (Json.string _) (Json.array _) r s e = cc
  spell-injective (Json.string _) (Json.object _) r s e = cc
  spell-injective (Json.array _) Json.null r s e = cc
  spell-injective (Json.array _) (Json.boolean _) r s e = cc
  spell-injective (Json.array _) (Json.integer (pos _)) r s e = cc
  spell-injective (Json.array _) (Json.integer (negsuc _)) r s e = cc
  spell-injective (Json.array _) (Json.float _) r s e = cc
  spell-injective (Json.array _) (Json.string _) r s e = cc
  spell-injective (Json.array x) (Json.array y) r s e =
      let (same, rests) = spell_items-injective x y r s (ap after_first e) in
      (ap Json.array same, rests)
  spell-injective (Json.array _) (Json.object _) r s e = cc
  spell-injective (Json.object _) Json.null r s e = cc
  spell-injective (Json.object _) (Json.boolean _) r s e = cc
  spell-injective (Json.object _) (Json.integer (pos _)) r s e = cc
  spell-injective (Json.object _) (Json.integer (negsuc _)) r s e = cc
  spell-injective (Json.object _) (Json.float _) r s e = cc
  spell-injective (Json.object _) (Json.string _) r s e = cc
  spell-injective (Json.object _) (Json.array _) r s e = cc
  spell-injective (Json.object x) (Json.object y) r s e =
      let (same, rests) = spell_fields-injective x y r s (ap after_first e) in
      (ap Json.object same, rests)

  spell_items-injective :
      (j k : Items) (r s : Text) → spell_items j r ≡ spell_items k s → (j ≡ k) × (r ≡ s)
  spell_items-injective Items.no_item Items.no_item r s e = (refl, cc)
  spell_items-injective Items.no_item (Items.item _ _) r s e = cc
  spell_items-injective (Items.item _ _) Items.no_item r s e = cc
  spell_items-injective (Items.item x xs) (Items.item y ys) r s e =
      let (first, rests) =
        spell-injective x y (spell_items xs r) (spell_items ys s) (ap after_first e) in
      let (later, ends) = spell_items-injective xs ys r s rests in (cc, ends)

  spell_fields-injective :
      (j k : Fields) (r s : Text) → spell_fields j r ≡ spell_fields k s → (j ≡ k) × (r ≡ s)
  spell_fields-injective Fields.no_field Fields.no_field r s e = (refl, cc)
  spell_fields-injective Fields.no_field (Fields.field _ _ _) r s e = cc
  spell_fields-injective (Fields.field _ _ _) Fields.no_field r s e = cc
  spell_fields-injective (Fields.field m x xs) (Fields.field n y ys) r s e =
      let (names, rests) =
        sized-injective m n (spell x (spell_fields xs r)) (spell y (spell_fields ys s))
          (ap after_first e) in
      let (first, rests_after) =
        spell-injective x y (spell_fields xs r) (spell_fields ys s) rests in
      let (later, ends) = spell_fields-injective xs ys r s rests_after in (cc, ends)
