-- ===== src/Gateway/Symbols.antt =====
-- crates/gateway/src/lib.rs: `SymbolMap`, between the symbols of the venues and the instruments.
use feynman_engine.Prelude.{
  Bool, ◌&&◌, Option, none, some, String, List, [], ◌∷◌, ◌++◌, any, Map, lookup, insert, str_eq,
  if◌then◌else◌,
}
use feynman_engine.Prelude.Text.{◌++◌ as append}
use feynman_engine.Gateway.Errors.{Result, ok, err, validation}

pub record VenueSymbol : Type 0 where
  pub venue_id : String
  pub symbol : String

-- `forward` is a map whose keys are pairs of a venue and a symbol.
pub record SymbolMap : Type 0 where
  pub forward : List (VenueSymbol × String)
  pub reverse : Map (List VenueSymbol)

abbrev pub same_listing : String → String → VenueSymbol → Bool
same_listing venue symbol listing = str_eq listing.venue_id venue && str_eq listing.symbol symbol

abbrev pub listed : String → String → List VenueSymbol → Bool
listed venue symbol = any (same_listing venue symbol)

unfoldable pub forward_lookup : String → String → List (VenueSymbol × String) → Option String
forward_lookup venue symbol [] = none
forward_lookup venue symbol (entry ∷ rest) =
    let later = forward_lookup venue symbol rest in
    if same_listing venue symbol entry.0 then some entry.1 else later

unfoldable pub instrument_for : String → String → SymbolMap → Option String
unfolding forward_lookup
instrument_for venue symbol m = forward_lookup venue symbol m.forward

unfoldable pub venues_for : String → SymbolMap → Option (List VenueSymbol)
venues_for instrument m = lookup instrument m.reverse

-- `entry(…).or_default()`
abbrev pub or_empty : Option (List VenueSymbol) → List VenueSymbol
or_empty none = []
or_empty (some listings) = listings

abbrev pub add_listing : String → String → List VenueSymbol → List VenueSymbol
add_listing venue symbol listings =
    if listed venue symbol listings
    then listings
    else listings ++ (record { venue_id = venue; symbol = symbol } ∷ [])

abbrev pub insert_new : String → String → String → SymbolMap → SymbolMap
insert_new venue symbol instrument m = record {
  forward = (record { venue_id = venue; symbol = symbol }, instrument) ∷ m.forward;
  reverse =
      insert instrument (add_listing venue symbol (or_empty (lookup instrument m.reverse)))
        m.reverse;
}

abbrev insert_over : Option String → String → String → String → SymbolMap → Result SymbolMap
insert_over none venue symbol instrument m = ok (insert_new venue symbol instrument m)
insert_over (some existing) venue symbol instrument m =
    if str_eq existing instrument
    then ok m
    else err (
        validation (
          append "symbol map conflict for "
            (append venue (append ":" (append symbol (append ": already mapped to " existing))))))

-- `SymbolMap::insert`
unfoldable pub insert_symbol : String → String → String → SymbolMap → Result SymbolMap
unfolding instrument_for
insert_symbol venue symbol instrument m =
    insert_over (instrument_for venue symbol m) venue symbol instrument m

-- `SymbolMap::default`
abbrev pub empty_map : SymbolMap
empty_map = record { forward = []; reverse = [] }
