-- ===== src/Server/Wording.antt =====
-- The texts of the errors that server/inner.rs raises. No proof looks into them.
use frclib_nettables.Base.{ℕ, ◌++◌}
use frclib_nettables.Base.Int.{ℤ, show_int}
use frclib_nettables.Base.Text.{Text, codes, show}

pub client_id_text : ℕ → Text
client_id_text client_idx = codes "Client id: " ++ show client_idx

pub client_unannounced_text : ℕ → Text
client_unannounced_text client_idx =
    codes "client idx " ++ show client_idx ++ codes " could not be announced to [did not exist]"

pub topic_id_text : ℕ → Text
topic_id_text topic_idx = codes "Topic id: " ++ show topic_idx

pub topic_unannounced_text : ℕ → Text
topic_unannounced_text topic_idx =
    codes "topic idx " ++ show topic_idx ++ codes " could not be announced [did not exist]"

pub topic_not_removed_text : ℕ → Text
topic_not_removed_text topic_idx =
    codes "topic idx " ++ show topic_idx ++ codes " could not be removed [did not exist]"

pub metatopic_not_removed_text : ℕ → Text
metatopic_not_removed_text topic_idx =
    codes "metatopic idx " ++ show topic_idx ++ codes " could not be removed [did not exist]"

pub topic_not_set_text : ℕ → Text
topic_not_set_text topic_idx =
    codes "topic idx " ++ show topic_idx ++ codes " could not be set [did not exist]"

pub topic_not_found_text : ℕ → Text
topic_not_found_text topic_idx =
    codes "topic idx " ++ show topic_idx ++ codes " could not be found [did not exist]"

pub topic_name_not_found_text : Text → Text
topic_name_not_found_text topic_name =
    codes "topic name " ++ topic_name ++ codes " could not be found [did not exist]"

pub no_metatopic_text : ℕ → Text
no_metatopic_text client_idx =
    codes "Client id " ++ show client_idx ++ codes " metatopic did not exist"

pub no_pubuid_text : ℕ → ℕ → Text
no_pubuid_text pubuid client_idx =
    codes "pubuid "
    ++ show pubuid
    ++ codes " for client "
    ++ show client_idx
    ++ codes " related topic did not exist"

pub no_pub_count_text : ℕ → Text
no_pub_count_text topic_idx =
    codes "Topic idx " ++ show topic_idx ++ codes " did not exist in pub_count"

pub no_subuid_text : ℤ → Text
no_subuid_text subuid = codes "Subuid: " ++ show_int subuid

pub no_subscription_text : ℕ → Text
no_subscription_text sub_idx =
    codes "subscription idx " ++ show sub_idx ++ codes " could not be announced to [did not exist]"
