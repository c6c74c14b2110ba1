-- ===== src/Common/Permission.antt =====
-- fielddeck/common/models.py: PermissionLevel and ClientSource.
use field_deck.Prelude.{ℕ, ◌==◌, ◌≡◌, refl, Bool, true, false}

pub data PermissionLevel : Type 0 where
  passive query control power flash destructive : PermissionLevel

-- _PERMISSION_RANK
abbrev pub rank : PermissionLevel → ℕ
rank passive = 0
rank query = 1
rank control = 2
rank power = 3
rank flash = 4
rank destructive = 5

-- Python's `is` on two members of the enumeration.
abbrev pub same_level : PermissionLevel → PermissionLevel → Bool
same_level a b = rank a == rank b

pub same_level-eq : (a b : PermissionLevel) → same_level a b ≡ true → a ≡ b
same_level-eq passive passive h = refl
same_level-eq query query h = refl
same_level-eq control control h = refl
same_level-eq power power h = refl
same_level-eq flash flash h = refl
same_level-eq destructive destructive h = refl
same_level-eq _ _ h = cc

pub same_level_refl : (a : PermissionLevel) → same_level a a ≡ true
same_level_refl passive = refl
same_level_refl _ = refl

abbrev pub requires_grant : PermissionLevel → Bool
requires_grant passive = false
requires_grant _ = true

pub data ClientSource : Type 0 where
  hmi fdctl recipe claude system : ClientSource

-- Only a person at the HMI or the command line.
abbrev pub may_create_grants : ClientSource → Bool
may_create_grants hmi = true
may_create_grants fdctl = true
may_create_grants _ = false
