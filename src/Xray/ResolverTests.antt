-- ===== src/Xray/ResolverTests.antt =====
-- The resolver of the Xray instances at concrete lookups.
use nunya_core.Common.{ℕ, true, false, none, some, List, [], ◌∷◌, All}
use nunya_core.Xray.Resolver.{BoxContext, prefer_ipv4, v4}
use nunya_core.Xray.Resolver.Queried.{Asked, lookups, LookupPost, lookups-LookupPost}

abbrev box_of : ℕ → BoxContext
box_of t = record {
  has_router = true;
  transport_manager = some (some t);
  network_manager = some prefer_ipv4;
}

abbrev three_lookups : List Asked
three_lookups =
    record {
      option = record { ipv4_enable = true; ipv6_enable = true };
      answer = λ q. none;
      provided = none;
    }
    ∷ record {
      option = record { ipv4_enable = true; ipv6_enable = true };
      answer = λ q. some (v4 1 2 3 4 ∷ []);
      provided = some (box_of 7);
    }
    ∷ record {
      option = record { ipv4_enable = true; ipv6_enable = false };
      answer = λ q. none;
      provided = some (box_of 8);
    }
    ∷ []

lookups-LookupPost_example :
    All (LookupPost (lookups three_lookups none).1) (lookups three_lookups none).0
lookups-LookupPost_example = lookups-LookupPost three_lookups none
