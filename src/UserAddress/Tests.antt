-- ===== src/UserAddress/Tests.antt =====
-- The range check at the edges of user space.
use os.Base.{◌+◌, ◌≡◌, ◌&&◌, leb, arith}
use os.UserAddress.{user_space_base, user_stack_top, is_user_address_range}
use os.UserAddress.Range.{is_user_address_range_lem}

is_user_address_range_lem_example :
    is_user_address_range 0x000000803ffff000 0x1001
    ≡ (leb user_space_base 0x000000803ffff000 && leb (0x000000803ffff000 + 0x1001) user_stack_top)
is_user_address_range_lem_example =
    is_user_address_range_lem 0x000000803ffff000 0x1001 (omega arith) (omega arith) (omega arith)
