-- ===== src/Ros2.antt =====
-- The ROS 2 nodes in ros2/src/nav_ros/src that publish what the radar client delivers. What they share
-- is in Int, Window, Rotation and Configuration; each node is a module named for its class.
pub mod Int
pub mod Window
pub mod Rotation
pub mod Configuration
pub mod Cloud
pub mod PointCloud
pub mod Tuning
pub mod NavigationCloud
pub mod LaserScan
pub mod BScan
pub mod Colossus
