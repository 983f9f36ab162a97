-- ===== src/Discovery/Once.antt =====
-- What a browse lists of the servers that it finds.
use copysync.Prelude.{
  ◌≡◌, refl, sym, ap, ◌∙◌, subst, Bool, true, false, ◌||◌, some, List, [], ◌∷◌, ◌++◌, Text, member,
  Distinct, member-append, Distinct-append, text_eq_iff, if◌then◌else◌, arith,
}
use copysync.Discovery.{
  Found, Tick, resolved, other, timed_out, Browse, url_of, add_url, add_addresses, on_tick, browse,
  display_name, discover,
}

abbrev pub urls : List Found → List Text
urls [] = []
urls (f ∷ l) = f.url ∷ urls l

-- The URLs that the addresses of IPv4 make, and those of a whole browse.
abbrev pub offered_by : Text → List (Bool × Text) → List Text
offered_by port [] = []
offered_by port ((false, address) ∷ l) = offered_by port l
offered_by port ((true, address) ∷ l) = url_of address port ∷ offered_by port l

abbrev pub offered_in : Tick → List Text
offered_in (resolved s) = offered_by s.port s.addresses
offered_in other = []
offered_in timed_out = []

abbrev pub offered : List Tick → List Text
offered [] = []
offered (t ∷ ts) = offered_in t ++ offered ts

-- What has been listed has been seen, once.
abbrev Listed : Browse → Type 0
Listed b = (urls b.out ≡ b.seen) × Distinct b.seen

urls-append : (l : List Found) (f : Found) → urls (l ++ f ∷ []) ≡ urls l ++ f.url ∷ []
urls-append [] f = refl
urls-append (g ∷ l) f = ap (λ r. g.url ∷ r) (urls-append l f)

member-concat : (u : Text) (l m : List Text) → member u (l ++ m) ≡ (member u l || member u m)
unfolding member
member-concat u [] m = refl
member-concat u (j ∷ l) m = ground (arith, member-concat u l m)

-- What one step of the browse does to the URLs.
abbrev Gains : List Text → Browse → Browse → Type 0
Gains more b c =
    (Listed b → Listed c) × ((u : Text) → member u c.seen ≡ (member u b.seen || member u more))

Gains-if :
    (known : Bool) (name url : Text) (b : Browse)
    → member url b.seen ≡ known
    → Gains (url ∷ []) b (
        if known then b else record {
          out = b.out ++ record { name = name; url = url } ∷ [];
          seen = b.seen ++ url ∷ [];
        })
unfolding member
Gains-if true name url b is = (λ h. h, λ u. ground (arith, is, text_eq_iff url u))
Gains-if false name url b is = (
  λ h. (
    urls-append b.out (record { name = name; url = url }) ∙ ap (λ l. l ++ url ∷ []) h.0,
    Distinct-append url b.seen h.1 is,
  ),
  λ u. ground (arith, member-append u url b.seen),
)

Gains-add_url : (name url : Text) (b : Browse) → Gains (url ∷ []) b (add_url name url b)
unfolding add_url
Gains-add_url name url b = Gains-if (member url b.seen) name url b refl

Gains-add_addresses :
    (name port : Text) (l : List (Bool × Text)) (b : Browse)
    → Gains (offered_by port l) b (add_addresses name port l b)
unfolding add_addresses member
Gains-add_addresses name port [] b = (λ h. h, λ u. ground arith)
Gains-add_addresses name port ((false, address) ∷ l) b = Gains-add_addresses name port l b
Gains-add_addresses name port ((true, address) ∷ l) b =
    let url = url_of address port in
    let (listed, gains) = Gains-add_url name url b in
    let (then_listed, then_gains) = Gains-add_addresses name port l (add_url name url b) in
    (λ h. then_listed (listed h), λ u. ground (arith, gains u, then_gains u))

Gains-on_tick : (t : Tick) (b : Browse) → Gains (offered_in t) b (on_tick t b)
unfolding on_tick member
Gains-on_tick (resolved s) b = Gains-add_addresses (display_name s) s.port s.addresses b
Gains-on_tick other b = (λ h. h, λ u. ground arith)
Gains-on_tick timed_out b = (λ h. h, λ u. ground arith)

Gains-browse : (ts : List Tick) (b : Browse) → Gains (offered ts) b (browse ts b)
unfolding browse member
Gains-browse [] b = (λ h. h, λ u. ground arith)
Gains-browse (t ∷ ts) b =
    let (listed, gains) = Gains-on_tick t b in
    let (then_listed, then_gains) = Gains-browse ts (on_tick t b) in
    (
      λ h. then_listed (listed h),
      λ u. ground (arith, gains u, then_gains u, member-concat u (offered_in t) (offered ts)),
    )

-- A browse lists every server once: no URL twice, and just those that the addresses of IPv4 of the
-- services that were resolved make.
pub discover-Distinct :
    (ticks : List Tick)
    → (found : List Found) × (discover true ticks ≡ some found)
      × Distinct (urls found)
      × ((u : Text) → member u (urls found) ≡ member u (offered ticks))
unfolding discover member
discover-Distinct ticks =
    let start : Browse = record { out = []; seen = [] } in
    let (listed, gains) = Gains-browse ticks start in
    let (same, once) = listed (refl, tt) in
    (
      (browse ticks start).out,
      refl,
      subst Distinct (sym same) once,
      λ u. ap (member u) same ∙ gains u,
    )
