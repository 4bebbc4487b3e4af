-- ===== src/Gateway/Listings.antt =====
-- crates/gateway/src/lib.rs: that the two directions of `SymbolMap` agree.
use feynman_engine.Prelude.{
  ◌≡◌, ◌↔◌, refl, subst, Bool, true, ◌&&◌, ◌||◌, ◌⊎◌, if◌then◌else◌, none, some, String, List, [],
  ◌∷◌, ◌++◌, any, lookup, lookup-insert, str_eq, arith, eq_iff, Option-cases, inl, inr,
}
use feynman_engine.Gateway.Errors.{ok}
use feynman_engine.Gateway.Symbols.{
  VenueSymbol, SymbolMap, same_listing, listed, forward_lookup, instrument_for, or_empty,
  add_listing, insert_new, insert_symbol,
}

any-append {ℓ} :
    {A : Type ℓ} (p : A → Bool) (xs ys : List A) → any p (xs ++ ys) ≡ (any p xs || any p ys)
any-append p [] ys = refl
any-append p (x ∷ xs) ys = let rest = any-append p xs ys in ground (arith, rest)

-- A listing is mapped to an instrument exactly when it is among the instrument's listings.
abbrev pub IsConsistent : SymbolMap → Type 0
IsConsistent m =
    (venue symbol instrument : String)
    → (instrument_for venue symbol m ≡ some instrument)
      ↔ (listed venue symbol (or_empty (lookup instrument m.reverse)) ≡ true)

listed-add_listing :
    (venue symbol v s : String) (listings : List VenueSymbol)
    → listed v s (add_listing venue symbol listings)
      ≡ (listed v s listings || same_listing v s (record { venue_id = venue; symbol = symbol }))
listed-add_listing venue symbol v s listings =
    let split =
      any-append (same_listing v s) listings (record { venue_id = venue; symbol = symbol } ∷ []) in
    let present = listed_same venue symbol v s listings in
    ground (arith, split, present, eq_iff venue v, eq_iff symbol s)
  where
    listed_same :
        (venue symbol v s : String) (listings : List VenueSymbol)
        → (venue ≡ v)
        → (symbol ≡ s)
        → listed venue symbol listings ≡ listed v s listings
    listed_same venue symbol v s listings e e' = rw (e, e')

-- How an insertion may end.
insert_cases :
    (m m' : SymbolMap) (venue symbol instrument : String)
    → insert_symbol venue symbol instrument m ≡ ok m'
    → ((instrument_for venue symbol m ≡ some instrument) × (m ≡ m'))
      ⊎ ((instrument_for venue symbol m ≡ none) × (insert_new venue symbol instrument m ≡ m'))
unfolding insert_symbol
insert_cases m m' venue symbol instrument h = elim (Option-cases (instrument_for venue symbol m)) [
  | inl fresh ↦ inr (fresh, ground arith)
  | inr (existing, found) ↦ inl (ground (arith, eq_iff existing instrument))
]

abbrev Follows : SymbolMap → String → String → String → SymbolMap → Type 0
Follows m venue symbol instrument m' =
    IsConsistent m'
    × ((v s : String)
        → instrument_for v s m'
          ≡ (if str_eq venue v && str_eq symbol s then some instrument else instrument_for v s m))

unmapped :
    (m : SymbolMap) (venue symbol v s : String)
    → instrument_for venue symbol m ≡ none
    → venue ≡ v
    → symbol ≡ s
    → instrument_for v s m ≡ none
unmapped m venue symbol v s h e e' = rw (← e, ← e') h

mapped :
    (m : SymbolMap) (venue symbol v s instrument : String)
    → instrument_for venue symbol m ≡ some instrument
    → venue ≡ v
    → symbol ≡ s
    → instrument_for v s m ≡ some instrument
mapped m venue symbol v s instrument h e e' = rw (← e, ← e') h

insert_new-Follows :
    (m : SymbolMap) (venue symbol instrument : String)
    → IsConsistent m
    → instrument_for venue symbol m ≡ none
    → Follows m venue symbol instrument (insert_new venue symbol instrument m)
unfolding instrument_for forward_lookup
insert_new-Follows m venue symbol instrument c fresh = (
  λ v s i.
      let written =
        lookup-insert instrument i
          (add_listing venue symbol (or_empty (lookup instrument m.reverse))) m.reverse in
      let added = listed-add_listing venue symbol v s (or_empty (lookup instrument m.reverse)) in
      ground (
        arith,
        written,
        added,
        c v s i,
        c v s instrument,
        unmapped m venue symbol v s fresh,
        eq_iff instrument i,
        eq_iff venue v,
        eq_iff symbol s,
      ),
  λ v s. ground arith,
)

-- An insertion that succeeds maps the listing to the instrument, leaves what every other listing is
-- mapped to, and keeps the map consistent: a listing is mapped to an instrument exactly when it is
-- among the instrument's listings.
pub insert_symbol-IsConsistent :
    (m m' : SymbolMap) (venue symbol instrument : String)
    → IsConsistent m
    → insert_symbol venue symbol instrument m ≡ ok m'
    → IsConsistent m'
      × ((v s : String)
          → instrument_for v s m'
            ≡ (if str_eq venue v && str_eq symbol s then some instrument else instrument_for v s m))
insert_symbol-IsConsistent m m' venue symbol instrument c h =
    elim (insert_cases m m' venue symbol instrument h) [
      | inl (found, same) ↦ subst (Follows m venue symbol instrument) same (
        c,
        λ v s.
            ground
              (arith, mapped m venue symbol v s instrument found, eq_iff venue v, eq_iff symbol s),
      )
      | inr (fresh, new) ↦
          subst (Follows m venue symbol instrument) new
            (insert_new-Follows m venue symbol instrument c fresh)
    ]
