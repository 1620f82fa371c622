-- ===== src/Rules.antt =====
-- extensions/lifecycle/util: from the lifecycle rules of a bucket to the listings of objects that
-- they ask for.
pub mod Rule
pub mod Days
pub mod Reducer
pub mod Serves
pub mod Folds
pub mod Due
pub mod Coverage
pub mod LeftOut
pub mod Lowest
pub mod Params
pub mod Task
pub mod Process
pub mod Requeue
pub mod Resume
pub mod Tests
