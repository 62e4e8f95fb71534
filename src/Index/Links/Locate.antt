-- ===== src/Index/Links/Locate.antt =====
-- Where a removal finds the entry that it takes out.
use objmapper.Base.{
  ℕ, zero, suc, ◌≤◌, ◌≡◌, ◌≢◌, refl, sym, ap, ◌∙◌, inl, inr, true, false, Option, some, List, [],
  ◌∷◌, length, get_elem?, Bool-cases, if_eq_true, if_eq_false, arith,
}
use objmapper.Base.Distinct.{Outside}
use objmapper.Index.Entry.{Entry, Memory}
use objmapper.Index.Tables.{found, missing, walk_entry, next_of, matches}
use objmapper.Index.Removal.{Located, at_link, nowhere, locate, locate_entry}
use objmapper.Index.Links.{Chain, first_match}

-- Where an entry of a list is linked.
unfoldable pub locate_list : Memory → ℕ → List ℕ → Option ℕ → List ℕ → Located
locate_list m hash uri prev [] = nowhere
locate_list m hash uri prev (i ∷ is) =
    locate_entry (get_elem? m.entries i) prev i hash uri (locate_list m hash uri (some i) is)

pub locate-locate_list :
    (fuel : ℕ) (m : Memory) (hash : ℕ) (uri : List ℕ) (prev head : Option ℕ) (is : List ℕ)
    → length is ≤ fuel
    → Chain m head is
    → locate fuel m hash uri prev head ≡ locate_list m hash uri prev is
unfolding locate locate_list
locate-locate_list zero m hash uri prev head [] h c = ap (locate zero m hash uri prev) c
locate-locate_list (suc fuel) m hash uri prev head [] h c = ap (locate (suc fuel) m hash uri prev) c
locate-locate_list zero m hash uri prev head (i ∷ is) h c = absurd (omega arith)
locate-locate_list (suc fuel) m hash uri prev head (i ∷ is) h c =
    ap (locate (suc fuel) m hash uri prev) c.0
    ∙ ap
        (λ o.
          locate_entry (get_elem? m.entries i) prev i hash uri
            (locate fuel m hash uri (some i) (next_of o)))
        c.1.1.0
    ∙ ap (locate_entry (get_elem? m.entries i) prev i hash uri)
        (locate-locate_list fuel m hash uri (some i) c.1.0.next is (omega arith) c.1.1.1.1)

-- The two outcomes for the first entry of a list.
module _ (m : Memory) (hash : ℕ) (uri : List ℕ) (i : ℕ) (e : Entry)
    (there : get_elem? m.entries i ≡ some e) where
  pub locate_hit :
      (prev : Option ℕ) (is : List ℕ)
      → matches e hash uri ≡ true
      → locate_list m hash uri prev (i ∷ is) ≡ at_link prev i
  unfolding locate_list locate_entry
  locate_hit prev is hit =
      ap (λ o. locate_entry o prev i hash uri (locate_list m hash uri (some i) is)) there
      ∙ if_eq_true (matches e hash uri) _ _ hit

  pub locate_pass :
      (prev : Option ℕ) (is : List ℕ)
      → matches e hash uri ≡ false
      → locate_list m hash uri prev (i ∷ is) ≡ locate_list m hash uri (some i) is
  unfolding locate_list locate_entry
  locate_pass prev is off =
      ap (λ o. locate_entry o prev i hash uri (locate_list m hash uri (some i) is)) there
      ∙ if_eq_false (matches e hash uri) _ _ off

  first_hit : (is : List ℕ) → matches e hash uri ≡ true → first_match m hash uri (i ∷ is) ≡ found i
  unfolding first_match walk_entry
  first_hit is hit =
      ap (λ o. walk_entry o i hash uri (first_match m hash uri is)) there
      ∙ if_eq_true (matches e hash uri) _ _ hit

  first_pass :
      (is : List ℕ)
      → matches e hash uri ≡ false
      → first_match m hash uri (i ∷ is) ≡ first_match m hash uri is
  unfolding first_match walk_entry
  first_pass is off =
      ap (λ o. walk_entry o i hash uri (first_match m hash uri is)) there
      ∙ if_eq_false (matches e hash uri) _ _ off

-- What a search finds is what a removal locates.
pub located :
    (m : Memory) (hash : ℕ) (uri : List ℕ) (prev head : Option ℕ) (is : List ℕ) (i : ℕ)
    → Chain m head is
    → first_match m hash uri is ≡ found i
    → (p : Option ℕ) × (locate_list m hash uri prev is ≡ at_link p i)
unfolding first_match
located m hash uri prev head [] i c f = cc
located m hash uri prev head (j ∷ is) i c f =
    let there = c.1.1.0 in
    elim (Bool-cases (matches c.1.0 hash uri)) [
      | inl hit ↦
          let same : found j ≡ found i = sym (first_hit m hash uri j c.1.0 there is hit) ∙ f in
          let ji : j ≡ i = cc in
          (prev, locate_hit m hash uri j c.1.0 there prev is hit ∙ ap (at_link prev) ji)
      | inr off ↦
          let rest =
            located m hash uri (some j) c.1.0.next is i c.1.1.1.1
              (sym (first_pass m hash uri j c.1.0 there is off) ∙ f) in
          (rest.0, locate_pass m hash uri j c.1.0 there prev is off ∙ rest.1)
    ]

pub not_located :
    (m : Memory) (hash : ℕ) (uri : List ℕ) (prev head : Option ℕ) (is : List ℕ)
    → Chain m head is
    → first_match m hash uri is ≡ missing
    → locate_list m hash uri prev is ≡ nowhere
unfolding locate_list
not_located m hash uri prev head [] c f = refl
not_located m hash uri prev head (j ∷ is) c f =
    let there = c.1.1.0 in
    elim (Bool-cases (matches c.1.0 hash uri)) [
      | inl hit ↦
          let same : found j ≡ missing = sym (first_hit m hash uri j c.1.0 there is hit) ∙ f in cc
      | inr off ↦
          locate_pass m hash uri j c.1.0 there prev is off
          ∙ not_located m hash uri (some j) c.1.0.next is c.1.1.1.1
              (sym (first_pass m hash uri j c.1.0 there is off) ∙ f)
    ]

-- The entry that is located is one of the list.
pub located_ne :
    (m : Memory) (hash : ℕ) (uri : List ℕ) (prev head : Option ℕ) (is : List ℕ) (x i : ℕ)
    (p : Option ℕ)
    → Chain m head is
    → Outside x is
    → locate_list m hash uri prev is ≡ at_link p i
    → x ≢ i
unfolding locate_list
located_ne m hash uri prev head [] x i p c out f = cc
located_ne m hash uri prev head (j ∷ is) x i p c out f =
    let there = c.1.1.0 in
    elim (Bool-cases (matches c.1.0 hash uri)) [
      | inl hit ↦
          let same : at_link prev j ≡ at_link p i =
            sym (locate_hit m hash uri j c.1.0 there prev is hit) ∙ f in
          let ji : j ≡ i = cc in λ xi. out.0 (xi ∙ sym ji)
      | inr off ↦
          located_ne m hash uri (some j) c.1.0.next is x i p c.1.1.1.1 out.1
            (sym (locate_pass m hash uri j c.1.0 there prev is off) ∙ f)
    ]

-- Past the first entry, the link that is located starts at an entry.
pub located_prev :
    (m : Memory) (hash : ℕ) (uri : List ℕ) (k : ℕ) (head : Option ℕ) (is : List ℕ) (i : ℕ)
    (p : Option ℕ)
    → Chain m head is
    → locate_list m hash uri (some k) is ≡ at_link p i
    → (q : ℕ) × ((p ≡ some q) × ((x : ℕ) → x ≢ k → Outside x is → x ≢ q))
unfolding locate_list
located_prev m hash uri k head [] i p c f = cc
located_prev m hash uri k head (j ∷ is) i p c f =
    let there = c.1.1.0 in
    elim (Bool-cases (matches c.1.0 hash uri)) [
      | inl hit ↦
          let same : at_link (some k) j ≡ at_link p i =
            sym (locate_hit m hash uri j c.1.0 there (some k) is hit) ∙ f in
          let kp : some k ≡ p = cc in (k, (sym kp, λ x ne out. ne))
      | inr off ↦
          let rest =
            located_prev m hash uri j c.1.0.next is i p c.1.1.1.1
              (sym (locate_pass m hash uri j c.1.0 there (some k) is off) ∙ f) in
          (rest.0, (rest.1.0, λ x ne out. rest.1.1 x out.0 out.1))
    ]
