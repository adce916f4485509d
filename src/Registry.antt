-- ===== src/Registry.antt =====
-- The command registry of common/PlugContext.h: `SCmd`, `SCallback`, `COpRegiHelper` and
-- `GetGlobalCmdMap`. A `std::map` is an association list whose keys are told apart as the map does.
use websocket_test.Base.{
  ℕ, ◌≡◌, ◌⊎◌, ◌↔◌, arith, Bool, true, false, not, ◌&&◌, Option, none, some, List, [], ◌∷◌, ◌==◌,
  ltb, if◌then◌else◌,
}

pub record Cmd : Type 0 where
  pub cmd : ℕ
  pub sub_cmd : ℕ

-- `operator ==` and `operator <`.
unfoldable pub same : Cmd → Cmd → Bool
same l r = l.cmd == r.cmd && l.sub_cmd == r.sub_cmd

unfoldable pub less : Cmd → Cmd → Bool
less l r = if not (l.cmd == r.cmd) then ltb l.cmd r.cmd else ltb l.sub_cmd r.sub_cmd

-- `SCallback`; NULL is `none`.
pub record Callback (F : Type 0) : Type 0 where
  pub key : Cmd
  pub factory : Option F

abbrev pub CmdMap : Type 0 → Type 0
CmdMap F = List (Cmd × Callback F)

-- `std::map` finds the entry whose key is neither less nor greater.
abbrev pub equivalent : Cmd → Cmd → Bool
equivalent a b = not (less a b) && not (less b a)

module _ {F : Type 0} where
  unfoldable pub find : Cmd → CmdMap F → Option (Callback F)
  unfolding less
  find k [] = none
  find k ((j, c) ∷ rest) = if equivalent j k then some c else find k rest

  register_unless : Option (Callback F) → Cmd → F → CmdMap F → CmdMap F
  register_unless (some c) k f m = m
  register_unless none k f m = (k, record { key = k; factory = some f }) ∷ m

  -- The constructor of `COpRegiHelper`: the first registration of a command stays.
  unfoldable pub register : Cmd → F → CmdMap F → CmdMap F
  unfolding register_unless find
  register k f m = register_unless (find k m) k f m

-- The order of commands is irreflexive, transitive and total, and the map's notion of equal keys is
-- ==.
less_order :
    (a b c : Cmd)
    → (less a a ≡ false)
      × (less a b ≡ true → less b c ≡ true → less a c ≡ true)
      × (((less a b ≡ true) ⊎ (less b a ≡ true)) ⊎ (a ≡ b))
      × (equivalent a b ≡ same a b)
unfolding less same
less_order a b c = (ground arith, (λ p q. ground arith), ground arith, ground arith)

equivalent_iff : (a b : Cmd) → (equivalent a b ≡ true) ↔ (a ≡ b)
unfolding less
equivalent_iff a b = ((λ h. ground arith), (λ h. ground arith))

-- A lookup after a registration finds the old entry of the command where there is one, the new one
-- where there is none, and of other commands what was there.
find-register :
    {F : Type 0} (k j : Cmd) (f : F) (m : CmdMap F)
    → find j (register k f m) ≡ (
        if equivalent k j
        then (elim (find k m) [
          | none ↦ some (record { key = k; factory = some f })
          | some c ↦ some c
        ])
        else find j m)
unfolding find register
find-register k j f m = ground (arith, equivalent_iff k j)
