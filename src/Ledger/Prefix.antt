-- ===== src/Ledger/Prefix.antt =====
-- A ledger only grows: what is written stays where it is.
use state_channels_plus.Prelude.{
  ℕ, ◌≡◌, Option, none, some, get_elem?, arith, get_elem?-push, get_elem?-modify_at,
  lt_of_get_elem?, inl, inr, Option-cases,
}
use state_channels_plus.Data.{Bytes, get_fork}
use state_channels_plus.Ledger.{
  Entry, Page, Ledger, new_page, write, Grows, stays, opens, writes, History, here, next,
}

abbrev pub entry_of : Option Page → ℕ → Option Entry
entry_of none j = none
entry_of (some p) j = get_elem? p.entries j

-- The entry at a fork and a height.
unfoldable pub entry_at : Ledger → ℕ → ℕ → Option Entry
entry_at l i j = entry_of (get_elem? l i) j

Grows-entry_at :
    {hash : Bytes → Bytes} {l m : Ledger} (i j : ℕ) (e : Entry)
    → Grows hash l m
    → entry_at l i j ≡ some e
    → entry_at m i j ≡ some e
unfolding entry_at
Grows-entry_at i j e stays h = h
Grows-entry_at {hash} {l} i j e (opens g) h = elim (Option-cases (get_elem? l i)) [
  | inl missing ↦ absurd (ground arith)
  | inr (q, found) ↦ ground (arith, get_elem?-push l (new_page g) i, lt_of_get_elem? l i q found)
]
Grows-entry_at {hash} {l} i j e (writes p x at height hashed) h =
    elim (Option-cases (get_elem? l i)) [
      | inl missing ↦ absurd (ground arith)
      | inr (q, found) ↦ ground (
        arith,
        get_elem?-modify_at (write x) (get_fork x.block) i l,
        get_elem?-push q.entries x j,
        lt_of_get_elem? q.entries j e,
      )
    ]

pub History-entry_at :
    {hash : Bytes → Bytes} {l m : Ledger} (i j : ℕ) (e : Entry)
    → History hash l m
    → entry_at l i j ≡ some e
    → entry_at m i j ≡ some e
History-entry_at i j e here h = h
History-entry_at i j e (next k g) h = Grows-entry_at i j e g (History-entry_at i j e k h)
