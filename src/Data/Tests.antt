-- ===== src/Data/Tests.antt =====
-- Runs of merging and of the walk, and the theorems at a concrete document.
use iot_ephemeral_value_stor.Base.{
  ◌≡◌, ◌↔◌, refl, inl, inr, [], ◌∷◌, codes, split, ok, err, parameter_not_found,
  invalid_parameter_path, arith, compare_text, text_eq_iff,
}
use iot_ephemeral_value_stor.Json.{Fields, str, obj, end, field, lookup, insert, put_all}
use iot_ephemeral_value_stor.Json.Sorted.{IsSorted}
use iot_ephemeral_value_stor.Data.{merge_data_at_path, traverse_field}
use iot_ephemeral_value_stor.Data.View.{get}
use iot_ephemeral_value_stor.Data.Merge.{merge_data_at_path-frame}
use iot_ephemeral_value_stor.Data.Slash.{merge_data_at_path-slash}
use iot_ephemeral_value_stor.Data.Order.{merge_data_at_path_comm}
use iot_ephemeral_value_stor.Data.Field.{
  Walk, field_path, traverse_field-merge_data_at_path, traverse_field-Walk,
}

abbrev temp : Fields
temp = field (codes "temp") (str (codes "21")) end

abbrev humidity : Fields
humidity = field (codes "hum") (str (codes "40")) end

-- {"house": {"room": {"temp": "20"}}, "name": "x"}
abbrev house : Fields
house =
    field (codes "house")
      (obj (field (codes "room") (obj (field (codes "temp") (str (codes "20")) end)) end))
      (field (codes "name") (str (codes "x")) end)

merge_runs :
    (merge_data_at_path house (codes "house/room") temp
      ≡ field
          (codes "house")
          (obj (field (codes "room") (obj temp) end))
          (field (codes "name") (str (codes "x")) end))
    × (merge_data_at_path house (codes "house/room") humidity
        ≡ field
            (codes "house")
            (obj (
              field
                (codes "room")
                (obj (
                  field
                    (codes "hum")
                    (str (codes "40"))
                    (field (codes "temp") (str (codes "20")) end)))
                end))
            (field (codes "name") (str (codes "x")) end))
    × (merge_data_at_path house (codes "name") temp
        ≡ field
            (codes "house")
            (obj (field (codes "room") (obj (field (codes "temp") (str (codes "20")) end)) end))
            (field (codes "name") (obj temp) end))
    × (merge_data_at_path end (codes "a/b") temp
        ≡ field (codes "a") (obj (field (codes "b") (obj temp) end)) end)
    × (merge_data_at_path temp [] humidity
        ≡ field (codes "hum") (str (codes "40")) (field (codes "temp") (str (codes "21")) end))
unfolding merge_data_at_path lookup insert put_all compare_text
merge_runs = (refl, refl, refl, refl, refl)

traverse_runs :
    (traverse_field house (codes "house/room/temp") ≡ ok (str (codes "20")))
    × (traverse_field house (codes "house/kitchen")
        ≡ err (parameter_not_found (codes "house/kitchen")))
    × (traverse_field house (codes "name/temp") ≡ err (invalid_parameter_path (codes "name/temp")))
    × (traverse_field house [] ≡ err (parameter_not_found []))
unfolding traverse_field lookup compare_text
traverse_runs = (refl, refl, refl, refl)

merge_data_at_path-frame_example :
    get
      (codes "house" ∷ codes "room" ∷ codes "temp" ∷ [])
      (obj (merge_data_at_path house (codes "house/room") humidity))
    ≡ get (codes "house" ∷ codes "room" ∷ codes "temp" ∷ []) (obj house)
unfolding split lookup compare_text
merge_data_at_path-frame_example =
    merge_data_at_path-frame house humidity (codes "house/room")
      (codes "house" ∷ codes "room" ∷ codes "temp" ∷ []) (tt, tt, tt) (inr (refl, inr (refl, refl)))

house-IsSorted : IsSorted house
unfolding compare_text
house-IsSorted = ((refl, tt), (tt, (tt, tt, tt), tt), (tt, tt, tt))

merge_data_at_path_comm_example :
    merge_data_at_path
      (merge_data_at_path house (codes "house/room") temp)
      (codes "house/hall")
      humidity
    ≡ merge_data_at_path
        (merge_data_at_path house (codes "house/hall") humidity)
        (codes "house/room")
        temp
unfolding split compare_text
merge_data_at_path_comm_example =
    merge_data_at_path_comm house temp humidity (codes "house/room") (codes "house/hall")
      (inr (refl, inl (λ e. ground (arith, (text_eq_iff (codes "room") (codes "hall")).1 e))))

traverse_field-merge_data_at_path_example :
    traverse_field
      (merge_data_at_path house (codes "house/room") temp)
      (field_path (codes "house/room") (codes "temp"))
    ≡ ok (str (codes "21"))
unfolding lookup compare_text
traverse_field-merge_data_at_path_example =
    traverse_field-merge_data_at_path house temp (codes "house/room") (codes "temp")
      (str (codes "21")) (tt, tt, tt) (omega arith) refl

traverse_field-Walk_example :
    Walk
      (codes "house/room")
      (split b'/' (codes "house/room"))
      (obj house)
      (traverse_field house (codes "house/room"))
traverse_field-Walk_example = traverse_field-Walk house (codes "house/room")

merge_data_at_path-slash_example :
    (traverse_field (merge_data_at_path house (codes "house/room/") temp) (codes "house/room//temp")
      ≡ ok (str (codes "21")))
    × ((traverse_field
            (merge_data_at_path house (codes "house/room/") temp)
            (codes "house/room/temp")
          ≡ ok (str (codes "20")))
        ↔ (traverse_field house (codes "house/room/temp") ≡ ok (str (codes "20"))))
unfolding lookup compare_text
merge_data_at_path-slash_example =
    merge_data_at_path-slash house temp (codes "house/room") (codes "temp") (str (codes "21"))
      (str (codes "20")) (tt, tt, tt) (λ e. cc) (λ e. cc) (omega arith) refl
