-- ===== src/Index/Links/Remove.antt =====
-- What a removal does to a chain, and to the searches along it.
use objmapper.Base.{
  ℕ, ◌<◌, ◌≡◌, ◌≢◌, sym, ap, subst, ◌∙◌, inl, inr, Option, none, some, List, [], ◌∷◌, length,
  get_elem?, set, get_elem?-set_self, Bool-cases,
}
use objmapper.Base.Distinct.{
  Outside, without, without_head, without_next, without-Outside_other, Outside-without,
}
use objmapper.Index.Entry.{Entry, Memory, update_entry}
use objmapper.Index.Entry.Balance.{update_entry_at, update_entry_other}
use objmapper.Index.Tables.{next_of, head_of, head_in, matches}
use objmapper.Index.Tables.Chains.{linked_to, head_of-below}
use objmapper.Index.Removal.{at_link, unlink_entry}
use objmapper.Index.Links.{Chain}
use objmapper.Index.Links.Insert.{Chain-SameBut}
use objmapper.Index.Links.Locate.{locate_list, locate_hit, locate_pass, located_ne, located_prev}

-- The entry at p is linked past the entry at i.
abbrev past : ℕ → ℕ → Memory → Memory
past p i m = update_entry p (linked_to (next_of (get_elem? m.entries i))) m

without_first :
    (m : Memory) (j : ℕ) (e : Entry) (js : List ℕ)
    → get_elem? m.entries j ≡ some e
    → Outside j js
    → (m' : Memory) → Chain m' e.next js
    → Chain m' (next_of (get_elem? m.entries j)) (without j (j ∷ js))
without_first m j e js there out m' c =
    subst (Chain m' (next_of (get_elem? m.entries j)))
      (sym (without_head j js ∙ without-Outside_other j js out))
      (subst (λ h. Chain m' h js) (sym (ap next_of there)) c)

unlink_inside :
    (m : Memory) (hash : ℕ) (uri : List ℕ) (k : ℕ) (head : Option ℕ) (is : List ℕ) (p i : ℕ)
    → Chain m head (k ∷ is)
    → locate_list m hash uri (some k) is ≡ at_link (some p) i
    → Chain (past p i m) head (k ∷ without i is)
unfolding locate_list
unlink_inside m hash uri k head [] p i c f = cc
unlink_inside m hash uri k head (j ∷ js) p i c f =
    let there_k = c.1.1.0 in
    let out_k = c.1.1.1.0 in
    let d = c.1.1.1.1 in
    let there_j = d.1.1.0 in
    elim (Bool-cases (matches d.1.0 hash uri)) [
      | inl hit ↦
          let same : at_link (some k) j ≡ at_link (some p) i =
            sym (locate_hit m hash uri j d.1.0 there_j (some k) js hit) ∙ f in
          let ji : j ≡ i = cc in
          let kp : k ≡ p = cc in
          let rest =
            Chain-SameBut k m (past k j m) d.1.0.next js
              (λ x ne. update_entry_other k x (linked_to (next_of (get_elem? m.entries j))) m ne)
              out_k.1 d.1.1.1.1 in
          subst (λ q. Chain (past q i m) head (k ∷ without i (j ∷ js))) kp
            (subst (λ y. Chain (past k y m) head (k ∷ without y (j ∷ js))) ji
              (
                c.0,
                (
                  linked_to (next_of (get_elem? m.entries j)) c.1.0,
                  (
                    update_entry_at k (linked_to (next_of (get_elem? m.entries j))) m c.1.0 there_k,
                    (
                      Outside-without j k (j ∷ js) out_k,
                      without_first m j d.1.0 js there_j d.1.1.1.0 (past k j m) rest,
                    ),
                  ),
                ),
              ))
      | inr off ↦
          let g = sym (locate_pass m hash uri j d.1.0 there_j (some k) js off) ∙ f in
          let tail = unlink_inside m hash uri j c.1.0.next js p i d g in
          let prev = located_prev m hash uri j d.1.0.next js i (some p) d.1.1.1.1 g in
          let kept : k ≢ p =
            λ kp. let pq : p ≡ prev.0 = cc in prev.1.1 k out_k.0 out_k.1 (kp ∙ pq) in
          let ne =
            located_ne m hash uri (some j) d.1.0.next js j i (some p) d.1.1.1.1 d.1.1.1.0 g in
          subst (λ xs. Chain (past p i m) head (k ∷ xs)) (sym (without_next i j js ne))
            (
              c.0,
              (
                c.1.0,
                (
                  update_entry_other p k (linked_to (next_of (get_elem? m.entries i))) m
                        (λ e. kept (sym e))
                      ∙ there_k,
                  ((out_k.0, Outside-without i k js out_k.1), tail),
                ),
              ),
            )
    ]

-- Unlinking the located entry takes it out of the list.
pub unlink_entry-Chain :
    (m : Memory) (buckets : List (Option ℕ)) (b hash : ℕ) (uri is : List ℕ) (prev : Option ℕ)
    (i : ℕ)
    → Chain m (head_of buckets b) is
    → locate_list m hash uri none is ≡ at_link prev i
    → Chain
        (unlink_entry prev b (next_of (get_elem? m.entries i)) buckets m).1
        (head_of (unlink_entry prev b (next_of (get_elem? m.entries i)) buckets m).0 b)
        (without i is)
unfolding locate_list unlink_entry head_of
unlink_entry-Chain m buckets b hash uri [] prev i c f = cc
unlink_entry-Chain m buckets b hash uri (j ∷ js) prev i c f =
    let there = c.1.1.0 in
    elim (Bool-cases (matches c.1.0 hash uri)) [
      | inl hit ↦
          let same : at_link none j ≡ at_link prev i =
            sym (locate_hit m hash uri j c.1.0 there none js hit) ∙ f in
          let ji : j ≡ i = cc in
          let first : none ≡ prev = cc in
          let new = λ (y : ℕ). set buckets b (next_of (get_elem? m.entries y)) in
          subst
            (λ q.
              Chain (unlink_entry q b (next_of (get_elem? m.entries i)) buckets m).1
                (head_of (unlink_entry q b (next_of (get_elem? m.entries i)) buckets m).0 b)
                (without i (j ∷ js)))
            first
            (subst
              (λ y.
                Chain m (head_of (set buckets b (next_of (get_elem? m.entries y))) b)
                  (without y (j ∷ js)))
              ji
              (subst (λ h. Chain m h (without j (j ∷ js)))
                (sym (
                  head_of-set_any buckets b (next_of (get_elem? m.entries j))
                    (head_of-below buckets b j c.0)))
                (without_first m j c.1.0 js there c.1.1.1.0 m c.1.1.1.1)))
      | inr off ↦
          let g = sym (locate_pass m hash uri j c.1.0 there none js off) ∙ f in
          let at = located_prev m hash uri j c.1.0.next js i prev c.1.1.1.1 g in
          let ne = located_ne m hash uri (some j) c.1.0.next js j i prev c.1.1.1.1 c.1.1.1.0 g in
          subst
            (λ q.
              Chain (unlink_entry q b (next_of (get_elem? m.entries i)) buckets m).1
                (head_of (unlink_entry q b (next_of (get_elem? m.entries i)) buckets m).0 b)
                (without i (j ∷ js)))
            (sym at.1.0)
            (subst (Chain (past at.0 i m) (head_of buckets b)) (sym (without_next i j js ne)) (
              unlink_inside m hash uri j (head_of buckets b) js at.0 i c
                (g ∙ ap (λ q. at_link q i) at.1.0)))
    ]
  where
    head_of-set_any :
        (buckets : List (Option ℕ)) (b : ℕ) (o : Option ℕ)
        → b < length buckets
        → head_of (set buckets b o) b ≡ o
    head_of-set_any buckets b o h = ap head_in (get_elem?-set_self buckets b o h)
