-- ===== src/Money/Tests.antt =====
-- The theorem on rounding, applied to amounts without places and with four places.
use api_paperbase.Base.{◌^◌}
use api_paperbase.Base.Int.{pos}
use api_paperbase.Money.{money}
use api_paperbase.Money.Laws.{IsNearestCent, money-nearest}

money-nearest_example :
    IsNearestCent (pos 12350) (money (record { coefficient = pos 12350; places = 4 })) (10 ^ 4)
money-nearest_example = money-nearest (pos 12350) 4
