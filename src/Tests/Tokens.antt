-- ===== src/Tests/Tokens.antt =====
-- Three lists, of which two are equal and the third has the same hash.
use xed.Base.{◌≡◌, refl, [], ◌∷◌, nat_eq, list_eq}
use xed.Base.Dict.{insert}
use xed.Tokens.{Store, new_store, insert_token, Inserts, insert_token-Inserts, new_store-AreTokens}

abbrev one_list : Store
one_list = record { bins = (5, (1 ∷ 2 ∷ [], 1) ∷ []) ∷ []; token = 2 }

insert_run : insert_token (1 ∷ 2 ∷ []) new_store ≡ (1, one_list)
unfolding insert_token insert
insert_run = refl

same_run : insert_token (1 ∷ 2 ∷ []) one_list ≡ (1, one_list)
unfolding insert_token insert
same_run = refl

collision_run :
    insert_token (5 ∷ []) one_list
    ≡ (2, record { bins = (5, (1 ∷ 2 ∷ [], 1) ∷ (5 ∷ [], 2) ∷ []) ∷ []; token = 3 })
unfolding insert_token insert
collision_run = refl

insert_token-Inserts_example : Inserts (5 ∷ []) new_store (insert_token (5 ∷ []) new_store)
insert_token-Inserts_example = insert_token-Inserts (5 ∷ []) new_store new_store-AreTokens
