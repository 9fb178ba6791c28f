-- ===== src/Convert/Order.antt =====
-- Properties in another order: the loop over a property map in nats-mq/core/msgconv.go meets them in
-- an order that Go leaves open.
use mathlib.Core.List.Permᴰ.{Permᴰ, nil, cons, swap, trans}
use nats_mq.Prelude.{
  ◌≡◌, subst, ap, String, List, [], ◌∷◌, ◌++◌, none, arith, str_eq, eq_iff, false,
}
use nats_mq.Prelude.Dict.{Dict, lookup, absent_of_append, append-absent}
use nats_mq.Message.Data.{Value, Property}
use nats_mq.Message.Property.{FloatConv}
use nats_mq.Message.RoundTrip.{stored}
use nats_mq.Message.Wire.{Travels, arrived}

-- The property map that copyMessageProperties makes.
abbrev pub stored_all : List (String × Value) → Dict Property
stored_all [] = []
stored_all ((name, v) ∷ ps) = (name, stored v) ∷ stored_all ps

-- Each name is neither in the map nor an earlier one of the list.
abbrev pub AreNew : Dict Property → List (String × Value) → Type 0
AreNew d [] = Unit
AreNew d ((name, v) ∷ ps) = (lookup name d ≡ none) × AreNew (d ++ (name, stored v) ∷ []) ps

module _ (fc : FloatConv) where
  abbrev pub AllTravel : List (String × Value) → Type 0
  AllTravel [] = Unit
  AllTravel ((name, v) ∷ ps) = Travels fc v × AllTravel ps

  -- The properties as they arrive.
  abbrev pub arrived_all : List (String × Value) → List (String × Value)
  arrived_all [] = []
  arrived_all ((name, v) ∷ ps) = (name, arrived fc v) ∷ arrived_all ps

  pub AllTravel-Perm : {ps qs : List (String × Value)} → Permᴰ ps qs → AllTravel ps → AllTravel qs
  AllTravel-Perm nil t = tt
  AllTravel-Perm (cons e p) t = (subst (λ x. Travels fc x.1) e t.0, AllTravel-Perm p t.1)
  AllTravel-Perm (swap e e') t =
      (subst (λ x. Travels fc x.1) e' t.1.0, (subst (λ x. Travels fc x.1) e t.0, t.1.1))
  AllTravel-Perm (trans p q) t = AllTravel-Perm q (AllTravel-Perm p t)

  pub arrived_all-Perm :
      {ps qs : List (String × Value)} → Permᴰ ps qs → Permᴰ (arrived_all ps) (arrived_all qs)
  arrived_all-Perm nil = nil
  arrived_all-Perm (cons e p) = cons (ap (λ x. (x.0, arrived fc x.1)) e) (arrived_all-Perm p)
  arrived_all-Perm (swap e e') =
      swap (ap (λ x. (x.0, arrived fc x.1)) e) (ap (λ x. (x.0, arrived fc x.1)) e')
  arrived_all-Perm (trans p q) = trans (arrived_all-Perm p) (arrived_all-Perm q)

-- Every name that the one map does not hold is not held by the other.
abbrev Within : Dict Property → Dict Property → Type 0
Within d d' = (name : String) → lookup name d ≡ none → lookup name d' ≡ none

Within-append :
    (key : String) (v : Property) (d d' : Dict Property)
    → Within d d'
    → Within (d ++ (key, v) ∷ []) (d' ++ (key, v) ∷ [])
Within-append key v d d' h name absent =
    let (before, other) = absent_of_append key name v d absent in
    append-absent key name v d' (h name before) other

Within-swap :
    (a b : String) (v w : Property) (d d' : Dict Property)
    → Within d d'
    → Within ((d ++ (a, v) ∷ []) ++ (b, w) ∷ []) ((d' ++ (b, w) ∷ []) ++ (a, v) ∷ [])
Within-swap a b v w d d' h name absent =
    let (first, not_b) = absent_of_append b name w (d ++ (a, v) ∷ []) absent in
    let (before, not_a) = absent_of_append a name v d first in
    append-absent a name v (d' ++ (b, w) ∷ []) (append-absent b name w d' (h name before) not_b)
      not_a

AreNew-Within :
    (ps : List (String × Value)) (d d' : Dict Property) → Within d d' → AreNew d ps → AreNew d' ps
AreNew-Within [] d d' h new = tt
AreNew-Within ((name, v) ∷ ps) d d' h new = (
  h name new.0,
  AreNew-Within ps (d ++ (name, stored v) ∷ []) (d' ++ (name, stored v) ∷ [])
      (Within-append name (stored v) d d' h) new.1,
)

AreNew-swap :
    (x y : String × Value) (ps : List (String × Value)) (d : Dict Property)
    → AreNew d (x ∷ y ∷ ps)
    → AreNew d (y ∷ x ∷ ps)
AreNew-swap (a, v) (b, w) ps d new =
    let (absent, differ) = absent_of_append a b (stored v) d new.1.0 in
    let differ' : str_eq b a ≡ false = ground (arith, eq_iff a b, eq_iff b a, differ) in
    (
      absent,
      (
        append-absent b a (stored w) d new.0 differ',
        AreNew-Within ps ((d ++ (a, stored v) ∷ []) ++ (b, stored w) ∷ [])
            ((d ++ (b, stored w) ∷ []) ++ (a, stored v) ∷ [])
            (Within-swap a b (stored v) (stored w) d d (λ name h. h)) new.1.1,
      ),
    )

pub AreNew-Perm :
    {ps qs : List (String × Value)} (d : Dict Property) → Permᴰ ps qs → AreNew d ps → AreNew d qs
AreNew-Perm d nil new = tt
AreNew-Perm d (cons {a = (name, v)} {l₂ = l} e p) new =
    subst (λ x. AreNew d (x ∷ l)) e (new.0, AreNew-Perm (d ++ (name, stored v) ∷ []) p new.1)
AreNew-Perm d (swap {a = a} {b = b} {b' = b'} {l = l} e e') new =
    subst (λ x. AreNew d (x ∷ b' ∷ l)) e'
      (subst (λ x. AreNew d (b ∷ x ∷ l)) e (AreNew-swap a b l d new))
AreNew-Perm d (trans p q) new = AreNew-Perm d q (AreNew-Perm d p new)
