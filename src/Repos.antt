-- ===== src/Repos.antt =====
-- The repositories of groups and profiles (src/database/GroupsRepo.cpp, ProfilesRepo.cpp).
pub mod Groups
