-- ===== src/Plugin.antt =====
-- cmd/dra-rt-kubeletplugin: the plugin of the kubelet on each node.
pub mod Devices
pub mod Discovery
pub mod Possible
pub mod Cgroup
pub mod Cdi
pub mod State
pub mod Driver
