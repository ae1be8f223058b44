-- ===== src/Timeline.antt =====
-- mojo/services/media/common/cpp/timeline_rate.{h,cc} and timeline_function.{h,cc}.
pub mod Gcd
pub mod Rate
pub mod Function
