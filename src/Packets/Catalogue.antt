-- ===== src/Packets/Catalogue.antt =====
-- What the table of C Reversed/net/packet.h promises those who send and dispatch packets.
use gta_psp_multiplayer.Prelude.{
  ℕ, zero, suc, ◌+◌, ◌%◌, ◌≡◌, ◌⊎◌, refl, ap, sym, ◌∙◌, Bool, true, false, List, [], ◌∷◌, ◌++◌,
  length, get_elem?, none, some, if◌then◌else◌, ◌==◌, length-append, subst, arith, Bool-cases, inl,
  inr,
}
use gta_psp_multiplayer.Packets.{Packet, layout}
use gta_psp_multiplayer.Packets.Layout.{size_of}
use gta_psp_multiplayer.Packets.Numbers.{get_elem?-id_of}
use gta_psp_multiplayer.Packets.Registry.{Def, register, register_all, registered, id_of, test_size}

-- A test that every packet of a list passes.
abbrev passes : (Packet → Bool) → List Packet → Bool
passes test [] = true
passes test (p ∷ ps) = if test p then passes test ps else false

passed :
    (test : Packet → Bool) (ps : List Packet) (i : ℕ) (p : Packet)
    → passes test ps ≡ true
    → get_elem? ps i ≡ some p
    → test p ≡ true
passed test [] i p all at = ground arith
passed test (q ∷ ps) zero p all at = ground arith
passed test (q ∷ ps) (suc i) p all at = ground (arith, passed test ps i p)

meets : {a b : ℕ} → (a == b) ≡ true → a ≡ b
meets {a} {b} h = ground arith

-- What holds of all the packets of the list holds of a packet.
every : (test : Packet → Bool) → passes test registered ≡ true → (p : Packet) → test p ≡ true
every test all p = passed test registered (id_of p) p all (get_elem?-id_of p)

-- Every struct has the size that its registration expects: no test of a size fails.
pub sizes-agree : (p : Packet) → test_size p ≡ true
sizes-agree p = every test_size refl p

abbrev def_at : ℕ → Packet → Def
def_at i p = record { packet = p; pckt_id = i % 256; pckt_size = size_of (layout p) % 256 }

get_elem?-append_left :
    {A : Type 0} (xs ys : List A) (i : ℕ) (x : A)
    → get_elem? xs i ≡ some x
    → get_elem? (xs ++ ys) i ≡ some x
get_elem?-append_left [] ys i x h = ground arith
get_elem?-append_left (y ∷ xs) ys zero x h = h
get_elem?-append_left (y ∷ xs) ys (suc i) x h = get_elem?-append_left xs ys i x h

get_elem?-append_next :
    {A : Type 0} (xs : List A) (x : A) → get_elem? (xs ++ x ∷ []) (length xs) ≡ some x
get_elem?-append_next [] x = refl
get_elem?-append_next (y ∷ xs) x = get_elem?-append_next xs x

register_all-keeps :
    (ps : List Packet) (defs : List Def) (i : ℕ) (d : Def)
    → get_elem? defs i ≡ some d
    → get_elem? (register_all ps defs) i ≡ some d
register_all-keeps [] defs i d h = h
register_all-keeps (p ∷ ps) defs i d h =
    register_all-keeps ps (register p defs) i d (get_elem?-append_left defs _ i d h)

length-register : (p : Packet) (defs : List Def) → length (register p defs) ≡ suc (length defs)
length-register p defs = omega (arith, length-append defs (def_at (length defs) p ∷ []))

-- The packet at index `i` of a list is given the next number but `i`.
register_all-at :
    (ps : List Packet) (defs : List Def) (i : ℕ) (p : Packet)
    → get_elem? ps i ≡ some p
    → get_elem? (register_all ps defs) (length defs + i) ≡ some (def_at (length defs + i) p)
register_all-at [] defs i p h = ground arith
register_all-at (q ∷ ps) defs zero p h =
    subst (λ n. get_elem? (register_all ps (register q defs)) n ≡ some (def_at n p)) (omega arith)
      (register_all-keeps ps (register q defs) (length defs) (def_at (length defs) p) first)
  where
    first : get_elem? (register q defs) (length defs) ≡ some (def_at (length defs) p)
    first =
        get_elem?-append_next defs (def_at (length defs) q)
        ∙ ap (λ o. elim o [ none ↦ none | some r ↦ some (def_at (length defs) r) ]) h
register_all-at (q ∷ ps) defs (suc i) p h =
    subst (λ n. get_elem? (register_all ps (register q defs)) n ≡ some (def_at n p))
      (omega (arith, length-register q defs)) (register_all-at ps (register q defs) i p h)

zero_add : (n : ℕ) → 0 + n ≡ n
zero_add n = omega arith

-- The table holds every packet at the index that is its number on the wire, under that number.
pub register_all_lem :
    (p : Packet)
    → get_elem? (register_all registered []) (id_of p)
      ≡ some (record { packet = p; pckt_id = id_of p; pckt_size = size_of (layout p) % 256 })
register_all_lem p =
    subst
      (λ n.
        get_elem? (register_all registered []) (id_of p)
        ≡ some (record { packet = p; pckt_id = n; pckt_size = size_of (layout p) % 256 }))
      (meets (every (λ q. id_of q % 256 == id_of q) refl p))
      (subst (λ n. get_elem? (register_all registered []) n ≡ some (def_at n p))
        (zero_add (id_of p)) (register_all-at registered [] (id_of p) p (get_elem?-id_of p)))

-- Whether the size fits the field, or the packet is number 51.
abbrev fits : Packet → Bool
fits p = if size_of (layout p) % 256 == size_of (layout p) then true else id_of p == 51

numbered : (p : Packet) → id_of p ≡ 51 → p ≡ Packet.print_now
numbered p h =
    ap (λ o. elim o [ none ↦ p | some q ↦ q ])
      (sym (get_elem?-id_of p) ∙ ap (get_elem? registered) h)

past : {b : Bool} {x : Bool} → b ≡ false → (if b then true else x) ≡ true → x ≡ true
past e h = ground arith

-- The registered size is the size of the struct for every packet but PRINTNOW, whose 268 bytes do
-- not fit the field.
pub registered_size :
    (p : Packet) → (size_of (layout p) % 256 ≡ size_of (layout p)) ⊎ (p ≡ Packet.print_now)
registered_size p =
    by_fits (every fits refl p) (Bool-cases (size_of (layout p) % 256 == size_of (layout p)))
  where
    by_fits :
        fits p ≡ true
        → ((size_of (layout p) % 256 == size_of (layout p)) ≡ true)
          ⊎ ((size_of (layout p) % 256 == size_of (layout p)) ≡ false)
        → (size_of (layout p) % 256 ≡ size_of (layout p)) ⊎ (p ≡ Packet.print_now)
    by_fits h (inl small) = inl (meets small)
    by_fits h (inr large) = inr (numbered p (meets (past large h)))
