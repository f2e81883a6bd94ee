-- ===== src/Transport/Symbols/Table.antt =====
-- The two directions of a symbol table stay in step.
use datamancer.Base.{
  ℕ, zero, suc, ◌<◌, ◌≤◌, ◌≡◌, ◌↔◌, refl, sym, ap, ◌∙◌, subst, Bool, true, false, Option, none,
  some, String, List, [], ◌∷◌, ◌++◌, length, arith, if◌then◌else◌, ltb, leb, lookup, insert,
  lookup-insert, ◌==◌, nat_eq, beq_refl, some-eq, length-append, append_nil,
}
use datamancer.Core.Instrument.{Instrument, instrument_eq, instrument_beq_iff}
use datamancer.Transport.Symbols.{
  SymbolId, connection, get_elem?, SymbolTable, Interned, interned, too_long, exhausted, intern,
  intern_found, intern_new, intern_next, encode_instrument,
}

get_elem?-snoc {ℓ} :
    {A : Type ℓ} (xs : List A) (x : A) (n : ℕ)
    → get_elem? (xs ++ (x ∷ [])) n
      ≡ (if ltb n (length xs) then get_elem? xs n else if n == length xs then some x else none)
get_elem?-snoc [] x zero = refl
get_elem?-snoc [] x (suc n) = ground arith
get_elem?-snoc (y ∷ xs) x zero = ground arith
get_elem?-snoc (y ∷ xs) x (suc n) = ground (arith, get_elem?-snoc xs x n)

get_elem?-length {ℓ} :
    {A : Type ℓ} (xs : List A) (n : ℕ) (x : A) → get_elem? xs n ≡ some x → n < length xs
get_elem?-length [] n x e = cc
get_elem?-length (y ∷ xs) zero x e = omega arith
get_elem?-length (y ∷ xs) (suc n) x e = omega (arith, get_elem?-length xs n x e)

-- An instrument has an id exactly if it stands at its place; the ids are the places, and the
-- reserved one is not among them.
pub record IsConsistent (t : SymbolTable) : Type 0 where
  pub agree :
      (i : Instrument) (id : SymbolId)
      → (lookup i t.forward ≡ some id) ↔ (get_elem? t.reverse id ≡ some i)
  pub bounded : length t.reverse ≤ connection

-- One place, before and after an instrument is put at the end.
place :
    (i j : Instrument) (len id : ℕ) (b : Bool) (look : Option ℕ) (got : Option Instrument)
    → (b ≡ true) ↔ (i ≡ j)
    → (look ≡ some id) ↔ (got ≡ some j)
    → (b ≡ true → look ≡ none)
    → (got ≡ some j → id < len)
    → ((if b then some len else look) ≡ some id)
      ↔ ((if ltb id len then got else if id == len then some i else none) ≡ some j)
place i j len id true look got same agree fresh low = (
  λ e. ground (arith, fresh refl, same.0 refl, some-eq e),
  λ e. ground (arith, fresh refl, same.0 refl),
)
place i j len id false look got same agree fresh low = (λ e. ground arith, λ e. ground arith)

module _ (as_bytes : String → List ℕ) (t : SymbolTable) (i : Instrument) where
  intern_next-IsConsistent :
      (v : IsConsistent t)
      → lookup i t.forward ≡ none
      → length t.reverse < connection
      → IsConsistent (record {
        forward = insert i (length t.reverse) t.forward;
        reverse = t.reverse ++ (i ∷ []);
      })
  intern_next-IsConsistent v absent room = record {
    agree = λ j id.
        subst (λ x. (x ≡ some id) ↔ (get_elem? (t.reverse ++ (i ∷ [])) id ≡ some j))
          (sym (lookup-insert i j (length t.reverse) t.forward))
          (subst
            (λ x.
              ((if i == j then some (length t.reverse) else lookup j t.forward) ≡ some id)
              ↔ (x ≡ some j))
            (sym (get_elem?-snoc t.reverse i id))
            (place i j (length t.reverse) id (i == j) (lookup j t.forward) (get_elem? t.reverse id)
              (instrument_beq_iff i j) (v.agree j id)
              (λ b. ap (λ k. lookup k t.forward) (sym ((instrument_beq_iff i j).0 b)) ∙ absent)
              (get_elem?-length t.reverse id j)));
    bounded = omega (arith, room, length-append t.reverse (i ∷ []));
  }

  unreserved : (v : IsConsistent t) (id : SymbolId) → lookup i t.forward ≡ some id → id < connection
  unreserved v id e = omega (arith, v.bounded, get_elem?-length t.reverse id i ((v.agree i id).0 e))

  -- What is true of an instrument that has just been interned.
  pub record Registered (id : SymbolId) (t' : SymbolTable) : Type 0 where
    pub consistent : IsConsistent t'
    pub found : lookup i t'.forward ≡ some id
    pub listed : get_elem? t'.reverse id ≡ some i
    pub real : id < connection
    pub extends : (more : List Instrument) × (t'.reverse ≡ t.reverse ++ more)

  -- Interning in a table whose directions are in step keeps them so, gives the instrument an id that
  -- is its place and not the reserved one, and moves no other instrument.
  pub intern-Registered :
      (id : SymbolId) (t' : SymbolTable)
      → IsConsistent t
      → intern as_bytes t i ≡ interned id t'
      → Registered id t'
  unfolding intern intern_found intern_new intern_next
  intern-Registered id t' v e = go (lookup i t.forward) refl e
    where
      old : (k : SymbolId) → lookup i t.forward ≡ some k → Registered k t
      old k h = record {
        consistent = v;
        found = h;
        listed = (v.agree i k).0 h;
        real = unreserved v k h;
        extends = ([], sym (append_nil t.reverse));
      }

      fresh :
          lookup i t.forward ≡ none
          → length t.reverse < connection
          → Registered (length t.reverse) (record {
            forward = insert i (length t.reverse) t.forward;
            reverse = t.reverse ++ (i ∷ []);
          })
      fresh absent room =
          let w = intern_next-IsConsistent v absent room in
          let here : lookup i (insert i (length t.reverse) t.forward) ≡ some (length t.reverse) =
            lookup-insert i i (length t.reverse) t.forward
            ∙ ap (λ b. if b then some (length t.reverse) else lookup i t.forward) (beq_refl i) in
          record {
            consistent = w;
            found = here;
            listed = (w.agree i (length t.reverse)).0 here;
            real = room;
            extends = (i ∷ [], refl);
          }

      place_of : (b : Interned) → Type 0
      place_of (interned k u) = Registered k u
      place_of _ = Unit

      choose :
          (n : ℕ) (long full : Bool)
          → lookup i t.forward ≡ none
          → (full ≡ false → length t.reverse < connection)
          → place_of (
              if long
              then too_long n
              else if full
              then exhausted
              else interned (length t.reverse) (record {
                forward = insert i (length t.reverse) t.forward;
                reverse = t.reverse ++ (i ∷ []);
              }))
      choose n true full absent h = tt
      choose n false true absent h = tt
      choose n false false absent h = fresh absent (h refl)

      go :
          (o : Option SymbolId)
          → lookup i t.forward ≡ o
          → intern_found as_bytes t i o ≡ interned id t'
          → Registered id t'
      go (some k) h e = subst place_of e (old k h)
      go none h e =
          let n = length (encode_instrument as_bytes i) in
          subst place_of e
            (choose n (ltb 64 n) (leb connection (length t.reverse)) h (λ b. ground arith))

-- Interning an instrument again gives the same id, and the table as it is.
intern_again :
    (as_bytes : String → List ℕ) (t t' : SymbolTable) (i : Instrument) (id : SymbolId)
    → IsConsistent t
    → intern as_bytes t i ≡ interned id t'
    → intern as_bytes t' i ≡ interned id t'
unfolding intern intern_found
intern_again as_bytes t t' i id v e =
    ap (intern_found as_bytes t' i) (intern-Registered as_bytes t i id t' v e).found
