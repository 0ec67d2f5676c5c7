-- ===== src/Ical/Dedupe.antt =====
-- The event of each identity in app/ical.py.
use fincal.Prelude.{
  ◌+◌, ◌≡◌, refl, sym, ap, ◌∙◌, false, Option, none, some, List, [], ◌∷◌, ◌++◌, arith, inl, inr,
  Bool-cases, Option-cases, count, count-append, if◌then◌else◌,
}
use fincal.Prelude.Interfaces.{
  ◌==◌, ◌<?◌, beq_iff, nat_eq, list_eq, nat_order, list_order, not_lt_trans, lt_asymm,
}
use fincal.Prelude.Int.{ℤ, int_order}
use fincal.Prelude.Text.{Text}
use fincal.Prelude.Dict
use fincal.Prelude.Dict.{get-put, get-put_self}
use fincal.Calendar.{Date}
use fincal.Fiscal.Row.{Row}
use fincal.Ical.Events.{event_uid, Chosen, key_of, choose}

module _ (parse_moment : Text → Option ℤ) (show_other app_name : Text) where
  abbrev pub uid_of : Row × Date → Text
  uid_of (e, d) = event_uid parse_moment show_other app_name e d

  -- The event of an identity is one that `x` does not outrank, and that has the identity.
  pub record IsBest (uid : Text) (x : Row × Date) (c : Chosen) : Type 0 where
    pub best : Row × Date
    pub found : Dict.get uid c.1 ≡ some best
    pub not_outranked : (key_of x <? key_of best) ≡ false
    pub own : uid_of best ≡ uid

  -- Exactly the identities that have an event are listed, each once, and the events have the
  -- identities they are kept under.
  pub record IsChosen (c : Chosen) : Type 0 where
    pub unlisted : (uid : Text) → Dict.get uid c.1 ≡ none → count (λ u. u == uid) c.0 ≡ 0
    pub listed :
        (uid : Text) (x : Row × Date) → Dict.get uid c.1 ≡ some x → count (λ u. u == uid) c.0 ≡ 1
    pub keyed : (uid : Text) (x : Row × Date) → Dict.get uid c.1 ≡ some x → uid_of x ≡ uid

  key_irrefl : (x : Row × Date) → (key_of x <? key_of x) ≡ false
  key_irrefl x = list_order.irrefl (key_of x)

  -- To look up an identity after another event was put in.
  get-put_other :
      (u v : Text) (y : Row × Date) (d : List (Text × (Row × Date)))
      → (u == v) ≡ false
      → Dict.get v (Dict.put u y d) ≡ Dict.get v d
  get-put_other u v y d h = rw (get-put u v y d, h) refl

  -- An event of another identity.
  choose_other :
      (y : Row × Date) (u uid : Text) (c : Chosen)
      → (u == uid) ≡ false
      → Dict.get uid (choose (Dict.get u c.1) u y c).1 ≡ Dict.get uid c.1
  choose_other y u uid c other = elim (Option-cases (Dict.get u c.1)) [
    | inl new ↦ rw new (get-put_other u uid y c.1 other)
    | inr (old, known) ↦ elim (Bool-cases (key_of y <? key_of old)) [
      | inl better ↦ rw (known, better) (get-put_other u uid y c.1 other)
      | inr worse ↦ rw (known, worse) refl
    ]
  ]

  pub choose-IsBest :
      (x y : Row × Date) (uid : Text) (c : Chosen)
      → IsBest uid x c
      → IsBest uid x (choose (Dict.get (uid_of y) c.1) (uid_of y) y c)
  choose-IsBest x y uid c b = elim (Bool-cases (uid_of y == uid)) [
    | inr other ↦ record {
      best = b.best;
      found = choose_other y (uid_of y) uid c other ∙ b.found;
      not_outranked = b.not_outranked;
      own = b.own;
    }
    | inl same ↦
        let e = (beq_iff (uid_of y) uid).0 same in
        let known = ap (λ u. Dict.get u c.1) e ∙ b.found in
        elim (Bool-cases (key_of y <? key_of b.best)) [
          | inl better ↦
              rw (known, better)
                record {
                  best = y;
                  found = rw (get-put (uid_of y) uid y c.1, same) refl;
                  not_outranked =
                      not_lt_trans (key_of x) (key_of b.best) (key_of y) b.not_outranked
                        (lt_asymm (key_of y) (key_of b.best) better);
                  own = e;
                }
          | inr worse ↦ rw (known, worse) b
        ]
  ]

  -- The event itself is one that its identity's event does not lose to.
  pub choose_self :
      (x : Row × Date) (c : Chosen)
      → IsChosen c
      → IsBest (uid_of x) x (choose (Dict.get (uid_of x) c.1) (uid_of x) x c)
  choose_self x c ok = elim (Option-cases (Dict.get (uid_of x) c.1)) [
    | inl new ↦ rw new record {
      best = x;
      found = get-put_self (uid_of x) x c.1;
      not_outranked = key_irrefl x;
      own = refl;
    }
    | inr (old, known) ↦ elim (Bool-cases (key_of x <? key_of old)) [
      | inl better ↦
          rw (known, better)
            record {
              best = x;
              found = get-put_self (uid_of x) x c.1;
              not_outranked = key_irrefl x;
              own = refl;
            }
      | inr worse ↦
          rw (known, worse)
            record {
              best = old;
              found = known;
              not_outranked = worse;
              own = ok.keyed (uid_of x) old known;
            }
    ]
  ]

  put-keyed :
      (x : Row × Date) (d : List (Text × (Row × Date)))
      → ((uid : Text) (y : Row × Date) → Dict.get uid d ≡ some y → uid_of y ≡ uid)
      → (uid : Text) (y : Row × Date) → Dict.get uid (Dict.put (uid_of x) x d) ≡ some y
      → uid_of y ≡ uid
  put-keyed x d keyed uid y h = elim (Bool-cases (uid_of x == uid)) [
    | inr other ↦ keyed uid y (sym (get-put_other (uid_of x) uid x d other) ∙ h)
    | inl same ↦
        let at = rw (get-put (uid_of x) uid x d, same) at h in
        let shown : Path (Option (Row × Date)) (some x) (some y) = at in
        let e : x ≡ y = cc in ap uid_of (sym e) ∙ (beq_iff (uid_of x) uid).0 same
  ]

  put-missing :
      (u uid : Text) (x : Row × Date) (d : List (Text × (Row × Date)))
      → Dict.get uid (Dict.put u x d) ≡ none
      → ((u == uid) ≡ false) × (Dict.get uid d ≡ none)
  put-missing u uid x d h = elim (Bool-cases (u == uid)) [
    | inr other ↦ (other, sym (get-put_other u uid x d other) ∙ h)
    | inl same ↦ cc (rw (get-put u uid x d, same) at h)
  ]

  count-listed :
      (x : Row × Date) (uid : Text) (c : Chosen)
      → count (λ u. u == uid) (c.0 ++ uid_of x ∷ [])
        ≡ count (λ u. u == uid) c.0 + (if uid_of x == uid then 1 else 0)
  count-listed x uid c = count-append (λ u. u == uid) c.0 (uid_of x ∷ [])

  -- A new identity stands in the list once, and the others as before.
  new-listed :
      (x : Row × Date) (uid : Text) (y : Row × Date) (c : Chosen)
      → IsChosen c
      → Dict.get (uid_of x) c.1 ≡ none
      → Dict.get uid (Dict.put (uid_of x) x c.1) ≡ some y
      → count (λ u. u == uid) (c.0 ++ uid_of x ∷ []) ≡ 1
  new-listed x uid y c ok new h = elim (Bool-cases (uid_of x == uid)) [
    | inr other ↦
        let before = ok.listed uid y (sym (get-put_other (uid_of x) uid x c.1 other) ∙ h) in
        omega (arith, rw other at (count-listed x uid c), before)
    | inl same ↦
        let none_here = ap (λ u. Dict.get u c.1) (sym ((beq_iff (uid_of x) uid).0 same)) ∙ new in
        omega (arith, rw same at (count-listed x uid c), ok.unlisted uid none_here)
  ]

  -- A better event of an identity takes the place of the old one.
  old-listed :
      (x old : Row × Date) (uid : Text) (y : Row × Date) (c : Chosen)
      → IsChosen c
      → Dict.get (uid_of x) c.1 ≡ some old
      → Dict.get uid (Dict.put (uid_of x) x c.1) ≡ some y
      → count (λ u. u == uid) c.0 ≡ 1
  old-listed x old uid y c ok known h = elim (Bool-cases (uid_of x == uid)) [
    | inr other ↦ ok.listed uid y (sym (get-put_other (uid_of x) uid x c.1 other) ∙ h)
    | inl same ↦
        let e = (beq_iff (uid_of x) uid).0 same in
        ok.listed uid old (ap (λ u. Dict.get u c.1) (sym e) ∙ known)
  ]

  pub choose-IsChosen :
      (x : Row × Date) (c : Chosen)
      → IsChosen c
      → IsChosen (choose (Dict.get (uid_of x) c.1) (uid_of x) x c)
  choose-IsChosen x c ok = elim (Option-cases (Dict.get (uid_of x) c.1)) [
    | inl new ↦ rw new record {
      unlisted = λ uid h.
          let (other, none_before) = put-missing (uid_of x) uid x c.1 h in
          omega (
            arith,
            count-listed x uid c,
            rw other at (count-listed x uid c),
            ok.unlisted uid none_before,
          );
      listed = λ uid y h. new-listed x uid y c ok new h;
      keyed = put-keyed x c.1 ok.keyed;
    }
    | inr (old, known) ↦ elim (Bool-cases (key_of x <? key_of old)) [
      | inl better ↦
          rw (known, better)
            record {
              unlisted = λ uid h. ok.unlisted uid (put-missing (uid_of x) uid x c.1 h).1;
              listed = λ uid y h. old-listed x old uid y c ok known h;
              keyed = put-keyed x c.1 ok.keyed;
            }
      | inr worse ↦ rw (known, worse) ok
    ]
  ]
