-- ===== src/Notion/Build/Sound.antt =====
-- What a row is given is what it says: nothing is lost, written twice or made up.
use mathlib.Core.Path.{subst}
use ieum_agent.Base.{
  or_false, eq_of_test, ◌≡◌, refl, sym, ap, ◌∙◌, String, true, false, Option, none, some, List, [],
  ◌∷◌, ◌==◌, string_eq, contains, All-In, All, In, inl, inr, ◌⊎◌, arith, Bool-cases, test_self,
}
use ieum_agent.Base.Dict.{Dict, lookup, lookup-insert, lookup-nil}
use ieum_agent.Base.Result.{ok, ◌>>=◌, bind-ok, if-ok, ok-injective}
use ieum_agent.Value.{Value, dict, end, entry}
use ieum_agent.Notion.Values.{Python, blank}
use ieum_agent.Notion.Convert.{PropertyKind, convert}
use ieum_agent.Notion.Build.{
  Property, find_property, schema_properties, kind_in, put_cell, add_value, build_from, build,
}

module _ (py : Python) where
  -- what a row holds of a property
  abbrev pub cell : String → Option Value → Option Value
  cell t none = none
  cell t (some v) = some (dict (entry t v end))

  -- The property that a key stands for, and the value that is sent for it.
  pub record Converts (props : List Property) (key : String) (v : Value) : Type 0 where
    pub property : Property
    pub type : String
    pub kind : PropertyKind
    pub sent : Option Value
    pub found : find_property props key ≡ some property
    pub writable : kind_in property ≡ ok (type, kind)
    pub converted : convert py property.raw kind v ≡ ok sent

  record Adds (props : List Property) (seen : List String) (out : Dict Value) (key : String)
      (v : Value) (seen' : List String) (out' : Dict Value) : Type 0 where
    converts : Converts props key v
    is_new : contains seen converts.property.id ≡ false
    marked : seen' ≡ converts.property.id ∷ seen
    stored : out' ≡ put_cell converts.property.id converts.type converts.sent out

  add_value-Adds :
      (props : List Property) (seen : List String) (out : Dict Value) (key : String) (v : Value)
      (p : Option Property) (seen' : List String) (out' : Dict Value)
      → find_property props key ≡ p
      → add_value py seen out key v p ≡ ok (seen', out')
      → Adds props seen out key v seen' out'
  add_value-Adds props seen out key v none seen' out' f h = cc
  add_value-Adds props seen out key v (some p) seen' out' f h =
      let (new, rest) = if-ok (contains seen p.id) _ _ h in
      let ((t, kind), writable, sent) = bind-ok (kind_in p) _ rest in
      let (w, converted, last) = bind-ok (convert py p.raw kind v) _ sent in
      let same = ok-injective last in
      record {
        converts = record {
          property = p;
          type = t;
          kind = kind;
          sent = w;
          found = f;
          writable = writable;
          converted = converted;
        };
        is_new = new;
        marked = ap (λ x. x.0) (sym same);
        stored = ap (λ x. x.1) (sym same);
      }

  lookup-put_cell :
      (id i t : String) (w : Option Value) (out : Dict Value)
      → (i == id) ≡ false
      → lookup i (put_cell id t w out) ≡ lookup i out
  lookup-put_cell id i t none out h = refl
  lookup-put_cell id i t (some v) out h = lookup-insert i id _ out ∙ rw h refl

  lookup-put_self :
      (id t : String) (w : Option Value) (out : Dict Value)
      → lookup id out ≡ none
      → lookup id (put_cell id t w out) ≡ cell t w
  lookup-put_self id t none out h = h
  lookup-put_self id t (some v) out h = lookup-insert id id _ out ∙ rw (test_self id) refl

  -- the properties that were not given are not in the row yet
  abbrev Fresh : List String → Dict Value → Type 0
  Fresh seen out = (id : String) → contains seen id ≡ false → lookup id out ≡ none

  Adds-Fresh :
      (props : List Property) (seen : List String) (out : Dict Value) (key : String) (v : Value)
      (seen' : List String) (out' : Dict Value)
      → Adds props seen out key v seen' out'
      → Fresh seen out
      → Fresh seen' out'
  Adds-Fresh props seen out key v seen' out' a fresh i h =
      let (x, y) = or_false _ _ (subst (λ s. contains s i ≡ false) a.marked h) in
      rw a.stored (lookup-put_cell _ i _ _ out x ∙ fresh i y)

  -- One round: a value that is blank is passed over, any other is added.
  build_from-cons :
      (props : List Property) (seen : List String) (out final : Dict Value) (key : String)
      (v : Value) (given : Dict Value)
      → build_from py props seen out ((key, v) ∷ given) ≡ ok final
      → ((blank v ≡ true) × (build_from py props seen out given ≡ ok final))
        ⊎ ((seen' : List String) × (out' : Dict Value) × (blank v ≡ false)
            × Adds props seen out key v seen' out'
            × (build_from py props seen' out' given ≡ ok final))
  unfolding build_from
  build_from-cons props seen out final key v given h = elim (Bool-cases (blank v)) [
    | inl is_blank ↦ inl (is_blank, ground arith)
    | inr full ↦
        let ((seen', out'), added, rest) =
          bind-ok (add_value py seen out key v (find_property props key))
            (λ (s, o). build_from py props s o given) (ground arith) in
        inr (seen', out', full, add_value-Adds props seen out key v _ seen' out' refl added, rest)
  ]

  apart :
      (seen : List String) (i j : String)
      → contains seen i ≡ true
      → contains seen j ≡ false
      → (i == j) ≡ false
  apart seen i j k f = elim (Bool-cases (i == j)) [
    | inl same ↦ let c = subst (λ x. contains seen x ≡ false) (sym (eq_of_test i j same)) f in cc
    | inr other ↦ other
  ]

  -- what is in the row of a property that was given stays
  build_from-keeps :
      (props : List Property) (seen : List String) (out final : Dict Value) (given : Dict Value)
      → build_from py props seen out given ≡ ok final
      → (id : String) → contains seen id ≡ true
      → lookup id final ≡ lookup id out
  build_from-keeps props seen out final [] h id k =
      unfold build_from in ap (lookup id) (sym (ok-injective h))
  build_from-keeps props seen out final ((key, v) ∷ given) h id k =
      elim (build_from-cons props seen out final key v given h) [
        | inl (is_blank, rest) ↦ build_from-keeps props seen out final given rest id k
        | inr (seen', out', full, a, rest) ↦
            let other = apart seen id _ k a.is_new in
            build_from-keeps props seen' out' final given rest id (rw (a.marked, other) k)
            ∙ rw a.stored (lookup-put_cell _ id _ _ out other)
      ]

  -- The row holds what is sent for the key.
  abbrev pub Written : List Property → Dict Value → String × Value → Type 0
  Written props row (key, v) =
      blank v ≡ false → (c : Converts props key v) × (lookup c.property.id row ≡ cell c.type c.sent)

  build_from-Written :
      (props : List Property) (seen : List String) (out final : Dict Value) (given : Dict Value)
      → Fresh seen out
      → build_from py props seen out given ≡ ok final
      → All (Written props final) given
  build_from-Written props seen out final [] fresh h = tt
  build_from-Written props seen out final ((key, v) ∷ given) fresh h =
      elim (build_from-cons props seen out final key v given h) [
        | inl (is_blank, rest) ↦
            ((λ no. cc), build_from-Written props seen out final given fresh rest)
        | inr (seen', out', full, a, rest) ↦ (
          (λ no. (
            a.converts,
            build_from-keeps props seen' out' final given rest a.converts.property.id
                  (rw (a.marked, test_self a.converts.property.id) refl)
                ∙ rw a.stored (lookup-put_self _ _ _ out (fresh _ a.is_new)),
          )),
          build_from-Written props seen' out' final given
              (Adds-Fresh props seen out key v seen' out' a fresh) rest,
        )
      ]

  -- The value that a property of the row comes from.
  abbrev pub Given : List Property → Dict Value → String → Value → Type 0
  Given props given id x =
      (key : String) × (v : Value) × In (key, v) given
      × (blank v ≡ false)
      × (c : Converts props key v) × (c.property.id ≡ id)
      × (cell c.type c.sent ≡ some x)

  Given-cons :
      (props : List Property) (given : Dict Value) (first : String × Value) (id : String)
      (x : Value)
      → Given props given id x
      → Given props (first ∷ given) id x
  Given-cons props given first id x (key, v, m, full, c, e, w) = (key, v, inr m, full, c, e, w)

  put_cell-Given :
      (props : List Property) (seen : List String) (out : Dict Value) (key : String) (v : Value)
      (given : Dict Value) (seen' : List String) (out' : Dict Value) (id : String) (x : Value)
      → blank v ≡ false
      → Adds props seen out key v seen' out'
      → Fresh seen out
      → lookup id out' ≡ some x
      → (lookup id out ≡ some x) ⊎ Given props ((key, v) ∷ given) id x
  put_cell-Given props seen out key v given seen' out' id x full a fresh found =
      let p = a.converts.property in
      let stored = subst (λ o. lookup id o ≡ some x) a.stored found in
      elim (Bool-cases (id == p.id)) [
        | inl same ↦
            let e = eq_of_test id p.id same in
            let here =
              subst (λ i. lookup i (put_cell p.id a.converts.type a.converts.sent out) ≡ some x) e
                stored in
            inr (
              key,
              v,
              inl refl,
              full,
              a.converts,
              sym e,
              sym (lookup-put_self p.id _ _ out (fresh p.id a.is_new)) ∙ here,
            )
        | inr other ↦ inl (sym (lookup-put_cell p.id id _ _ out other) ∙ stored)
      ]

  build_from-Given :
      (props : List Property) (seen : List String) (out final : Dict Value) (given : Dict Value)
      → Fresh seen out
      → build_from py props seen out given ≡ ok final
      → (id : String) (x : Value) → lookup id final ≡ some x
      → (lookup id out ≡ some x) ⊎ Given props given id x
  build_from-Given props seen out final [] fresh h id x found =
      inl (unfold build_from in (ap (lookup id) (ok-injective h) ∙ found))
  build_from-Given props seen out final ((key, v) ∷ given) fresh h id x found =
      elim (build_from-cons props seen out final key v given h) [
        | inl (is_blank, rest) ↦
            elim (build_from-Given props seen out final given fresh rest id x found) [
              | inl before ↦ inl before
              | inr later ↦ inr (Given-cons props given (key, v) id x later)
            ]
        | inr (seen', out', full, a, rest) ↦
            elim (build_from-Given props seen' out' final given
              (Adds-Fresh props seen out key v seen' out' a fresh) rest id x found) [
                | inl before ↦
                    put_cell-Given props seen out key v given seen' out' id x full a fresh before
                | inr later ↦ inr (Given-cons props given (key, v) id x later)
              ]
      ]

  build-from :
      (schema : Value) (given row : Dict Value) (props : List Property)
      → schema_properties schema ≡ ok props
      → build py schema given ≡ ok row
      → build_from py props [] [] given ≡ ok row
  unfolding build
  build-from schema given row props read h =
      subst (λ r. (r >>= λ ps. build_from py ps [] [] given) ≡ ok row) read h

  -- If the properties of a row are built: each value given that is not blank is for a property of the
  -- schema, found by its id or else its name, which can be written, and the row holds under its id what
  -- the value converts to, and nothing if it converts to nothing.
  pub build_writes :
      (schema : Value) (given row : Dict Value) (props : List Property) (key : String) (v : Value)
      → schema_properties schema ≡ ok props
      → build py schema given ≡ ok row
      → In (key, v) given
      → blank v ≡ false
      → (c : Converts props key v) × (lookup c.property.id row ≡ cell c.type c.sent)
  build_writes schema given row props key v read h m full =
      All-In (Written props row) (key, v) given
        (build_from-Written props [] [] row given (λ i k. lookup-nil i)
          (build-from schema given row props read h))
        m full

  -- Whatever the row holds comes from a value given that is not blank.
  pub build_only :
      (schema : Value) (given row : Dict Value) (props : List Property) (id : String) (x : Value)
      → schema_properties schema ≡ ok props
      → build py schema given ≡ ok row
      → lookup id row ≡ some x
      → Given props given id x
  build_only schema given row props id x read h found =
      elim (build_from-Given props [] [] row given (λ i k. lookup-nil i)
        (build-from schema given row props read h) id x found) [
          | inl before ↦ let c = sym (lookup-nil id) ∙ before in cc
          | inr it ↦ it
        ]
