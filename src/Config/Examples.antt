-- ===== src/Config/Examples.antt =====
-- The theorems on the configuration at a product of two numbers and at a local address.
use ddmframework.Common.{
  ◌<◌, ◌≡◌, refl, [], ◌∷◌, ◌++◌, none, some, arith, map, length, length-append, ltb, if◌then◌else◌,
}
use ddmframework.Url.{codes}
use ddmframework.Decimal.{print, length-print}
use ddmframework.Config.{get_config_item_int, parse_addr, path_max}
use ddmframework.Config.Substitute.{wrote, overrun, substitute, get_config_item}
use ddmframework.Config.Delivery.{Delivers, configured, get_config_item_lem}
use ddmframework.Config.Numbers.{starred, product, get_config_item_int_lem, parse_addr_lem}

get_config_item_int_lem_example :
    (get_config_item_int (some (starred (map print (10 ∷ 1024 ∷ [])))) 5 ≡ (
      if ltb (length (starred (map print (10 ∷ 1024 ∷ [])))) 200
      then some (product (10 ∷ 1024 ∷ []))
      else none))
    × (get_config_item_int none 5 ≡ some 5)
get_config_item_int_lem_example =
    get_config_item_int_lem (10 ∷ 1024 ∷ []) 5
      ((omega arith, omega arith), ((omega arith, omega arith), tt)) (unfold product in omega arith)

short : length (codes "127.0.0.1" ++ b':' ∷ print 8_080) < path_max
short = omega (
  arith,
  length-append (codes "127.0.0.1") (b':' ∷ print 8_080),
  length-print 3 8_080 (omega arith),
)

parse_addr_lem_example :
    parse_addr (codes "127.0.0.1" ++ b':' ∷ print 8_080) 20 ≡ some (codes "127.0.0.1", 8_080)
parse_addr_lem_example =
    parse_addr_lem b'1' (codes "27.0.0.1") 8_080 20
      (
        omega arith,
        (
          omega arith,
          (
            omega arith,
            (omega arith, (omega arith, (omega arith, (omega arith, (omega arith, tt))))),
          ),
        ),
      )
      (omega arith) short (omega arith)

home_test :
    get_config_item (some (codes "${AGENT_HOME}/run/${AGENT_HOME}")) (some (codes "/opt")) 100 []
    ≡ wrote (codes "/opt/run//opt")
unfolding get_config_item
home_test = refl

-- A replacement that does not fit is not made: the item keeps its name.
no_room_test : substitute (codes "a$b") 8 (codes "$") (codes "12345678") ≡ wrote (codes "a$b")
unfolding substitute
no_room_test = refl

overrun_test : substitute (codes "$") 3 (codes "$") (codes "abc") ≡ overrun
unfolding substitute
overrun_test = refl

get_config_item_lem_example :
    Delivers
      (get_config_item (some (codes "${AGENT_HOME}/run")) (some (codes "/opt")) 20 [])
      20
      (configured (some (codes "${AGENT_HOME}/run")) (some (codes "/opt")) [])
get_config_item_lem_example =
    get_config_item_lem (some (codes "${AGENT_HOME}/run")) (some (codes "/opt")) 20 [] (omega arith)
