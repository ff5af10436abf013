-- ===== src/Subscription.antt =====
-- Subscriptions: src/configs/sub/GroupUpdater.cpp and the filters of src/database/entities/Profile.cpp.
pub mod Filter
pub mod Merge
pub mod Disect
pub mod Kinds
pub mod Raw
mod Examples
