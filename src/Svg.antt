-- ===== src/Svg.antt =====
-- pkg/svg: the picture of a ranking, and of the CPUs that VMs were placed on. The template that turns
-- `svgData` into text is left out.
pub mod Types
pub mod Color
pub mod Heatmap
pub mod Drawing
